-- ===== src/Logging/Search.antt =====
-- logging.cpp: the search for the last byte of a line that is not a newline.
use native.Mathlib.Decide.{ℕ_discrete}
use tcp_net_library.Base.{
  ℕ, zero, suc, ◌+◌, ◌≤◌, ◌<◌, ◌≡◌, ◌≢◌, refl, ap, sym, ◌∙◌, List, [], ◌∷◌, ◌++◌, some, arith,
  length, take, drop, replicate, get_elem?, ok, length-append, length-take, get_elem?-some,
  take-append, append_assoc, append-nil, some_inj, ne→==_false,
}
use tcp_net_library.Buffer.Memory.{written}
use tcp_net_library.Logging.{back_up}

pub take-written :
    (src xs : List ℕ) (i n : ℕ)
    → i ≤ length xs
    → n ≡ i + length src
    → take n (written src i xs) ≡ take i xs ++ src
take-written src xs i n h e =
    ap (take n) (sym (append_assoc (take i xs) src (drop (i + length src) xs)))
    ∙ take-append (take i xs ++ src) _ n
        (omega (arith, length-append (take i xs) src, length-take i xs))

take-suc :
    (xs : List ℕ) (n : ℕ) (c : ℕ) → get_elem? xs n ≡ some c → take (suc n) xs ≡ take n xs ++ c ∷ []
take-suc [] n c h = absurd (cc h)
take-suc (x ∷ xs) zero c h = ap (λ t. t ∷ []) (some_inj h)
take-suc (x ∷ xs) (suc n) c h = ap (◌∷◌ x) (take-suc xs n c h)

replicate_end : (k : ℕ) (c : ℕ) → replicate k c ++ c ∷ [] ≡ replicate (suc k) c
replicate_end zero c = refl
replicate_end (suc k) c = ap (◌∷◌ c) (replicate_end k c)

-- Where the search stops: on the last byte below `n` that is not a newline.
pub record Stops (buf : List ℕ) (n pb : ℕ) : Type 0 where
  pub newlines : ℕ
  pub last : ℕ
  pub at : get_elem? buf pb ≡ some last
  pub no_newline : last ≢ 10
  pub rest : take n buf ≡ take (pb + 1) buf ++ replicate newlines 10
  pub below : pb + 1 ≤ n

pub back_up_ok :
    (buf : List ℕ) (n low c : ℕ)
    → n ≤ length buf
    → low < n
    → get_elem? buf low ≡ some c
    → c ≢ 10
    → (pb : ℕ) × (back_up buf n ≡ ok pb) × Stops buf n pb
unfolding back_up
back_up_ok buf zero low c h l g d = absurd (omega arith)
back_up_ok buf (suc n) low c h l g d =
    let (x, e) = get_elem?-some buf n (omega arith) in
    let next : suc n ≡ n + 1 = omega arith in
    elim (ℕ_discrete x 10) [
      | no o ↦ (
        n,
        rw (e, ne→==_false x 10 o),
        record {
          newlines = 0;
          last = x;
          at = e;
          no_newline = o;
          rest = ap (λ t. take t buf) next ∙ sym (append-nil _);
          below = omega arith;
        },
      )
      | yes o ↦
          let apart : low ≢ n = λ q. d (some_inj (sym g ∙ ap (get_elem? buf) q ∙ e) ∙ o) in
          let (pb, r, s) = back_up_ok buf n low c (omega arith) (omega (arith, apart)) g d in
          (
            pb,
            rw (e, o) r,
            record {
              newlines = suc s.newlines;
              last = s.last;
              at = s.at;
              no_newline = s.no_newline;
              rest =
                  take-suc buf n 10 (e ∙ ap some o)
                  ∙ ap (λ t. t ++ 10 ∷ []) s.rest
                  ∙ append_assoc (take (pb + 1) buf) _ _
                  ∙ ap (◌++◌ (take (pb + 1) buf)) (replicate_end s.newlines 10);
              below = omega (arith, s.below);
            },
          )
    ]
