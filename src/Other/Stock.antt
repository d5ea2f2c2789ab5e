-- ===== src/Other/Stock.antt =====
-- other/StockFactory.h and other/StockFactory.cpp: a cache of weak pointers. A stock is its number;
-- `owners` counts the shared pointers to it. The last one that goes starts the deleter, which takes
-- the mutex later, so other calls may come between. `factory` says whether a shared pointer to the
-- factory is left.
pub mod Tidy
pub mod Shared
pub mod Twice
use tcp_net_library.Base.{
  ℕ, suc, ◌+◌, ◌<◌, ◌≡◌, Bool, true, false, List, Option, none, some, ◌==◌, if◌then◌else◌,
}
use tcp_net_library.Http.Text.{str_eq}
use tcp_net_library.Reactor.Poller.{update_at}

-- `dying`: no owner is left, and the deleter has not run.
pub data Life : Type 0 where
  living dying destroyed : Life

pub record StockFactory : Type 0 where
  pub stocks : List ℕ → Option ℕ
  pub created : ℕ
  pub keys : ℕ → List ℕ
  pub owners : ℕ → ℕ
  pub life : ℕ → Life
  pub factory : Bool

abbrev pub new_factory : StockFactory
new_factory = record {
  stocks = λ k. none;
  created = 0;
  keys = λ s. List.[];
  owners = λ s. 0;
  life = λ s. destroyed;
  factory = true;
}

abbrev pub set_key : (List ℕ → Option ℕ) → List ℕ → Option ℕ → List ℕ → Option ℕ
set_key m k v j = if str_eq j k then v else m j

-- `new Stock(key)`, with its first owner; the entry refers to it.
abbrev pub new_stock : StockFactory → List ℕ → StockFactory × ℕ
new_stock f k = (
  record f {
    stocks = set_key f.stocks k (some f.created);
    created = f.created + 1;
    keys = update_at f.keys f.created k;
    owners = update_at f.owners f.created 1;
    life = update_at f.life f.created living;
  },
  f.created,
)

abbrev pub copy : StockFactory → ℕ → StockFactory
copy f s = record f { owners = update_at f.owners s (f.owners s + 1) }

-- `lock` fails where no owner is left.
abbrev pub get_at : StockFactory → List ℕ → Option ℕ → StockFactory × ℕ
get_at f k none = new_stock f k
get_at f k (some s) = if f.owners s == 0 then new_stock f k else (copy f s, s)

unfoldable pub get : StockFactory → List ℕ → StockFactory × ℕ
get f k = get_at f k (f.stocks k)

abbrev pub remove_stock : StockFactory → ℕ → StockFactory
remove_stock f s = record f { stocks = set_key f.stocks (f.keys s) none }

unfoldable pub weak_delete_stock : StockFactory → ℕ → StockFactory
weak_delete_stock f s = record (if f.factory then remove_stock f s else f) {
  life = update_at f.life s destroyed;
}

-- `n` owners are left.
abbrev pub leave : StockFactory → ℕ → ℕ → StockFactory
leave f s n = record f {
  owners = update_at f.owners s n;
  life = update_at f.life s (if n == 0 then dying else f.life s);
}

-- Where `calm`, nobody asks for a key while a stock with that key waits for its deleter.
pub data Step (calm : Bool) (f : StockFactory) : StockFactory → Type 0 where
  gets :
      (k : List ℕ)
      → f.factory ≡ true
      → (calm ≡ true → (s : ℕ) → f.life s ≡ dying → str_eq (f.keys s) k ≡ false)
      → Step calm f (get f k).0
  copies : (s : ℕ) → 0 < f.owners s → Step calm f (copy f s)
  leaves : (s n : ℕ) → f.owners s ≡ suc n → Step calm f (leave f s n)
  deletes : (s : ℕ) → f.life s ≡ dying → Step calm f (weak_delete_stock f s)
  lets_go : Step calm f (record f { factory = false })

pub data Steps (calm : Bool) : StockFactory → Type 0 where
  start : Steps calm new_factory
  later : {f g : StockFactory} → Steps calm f → Step calm f g → Steps calm g
