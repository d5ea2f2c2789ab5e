-- ===== src/Logging/Line.antt =====
-- logging.cpp: the bytes of a line, and their number.
use tcp_net_library.Base.{
  ℕ, ◌+◌, ◌-◌, ◌≤◌, ◌<◌, ◌≡◌, ◌≢◌, refl, ap, sym, ◌∙◌, min, List, [], ◌∷◌, ◌++◌, some, arith,
  length, take, drop, replicate, get_elem?, ok, length-append, length-take, take-append, take_all,
  take_past, append_assoc, some_inj, ne→==_false, get_elem?_lt, Bool-cases, inl, inr, leb, leb→le,
  leb_false→lt, get_elem?-take, le→ltb_false, take-take_le, take_within,
}
use tcp_net_library.Buffer.Memory.{written, copy_to_ok, length-written}
use tcp_net_library.Logging.{record_line, print_at, back_up, buf_size}
use tcp_net_library.Logging.Search.{take-written, Stops, back_up_ok}

-- A line: the text without the newlines at its end, and one newline.
pub record IsLine (text out : List ℕ) : Type 0 where
  pub body : List ℕ
  pub newlines : ℕ
  pub ended : out ≡ body ++ 10 ∷ []
  pub stripped : text ≡ body ++ replicate newlines 10
  pub no_newline : get_elem? body (length body - 1) ≢ some 10

take_min : (n k : ℕ) (xs : List ℕ) → n ≡ min (length xs) k → take n xs ≡ take k xs
take_min n k xs h = elim (Bool-cases (leb (length xs) k)) [
  | inl e ↦
      let l : length xs ≤ k = leb→le _ _ e in take_all n xs (omega arith) ∙ sym (take_all k xs l)
  | inr e ↦
      let l : k < length xs = leb_false→lt _ _ e in
      let same : n ≡ k = omega arith in ap (λ t. take t xs) same
]

take-take_written :
    (src xs : List ℕ) (i : ℕ) → i ≤ length xs → take i (written src i xs) ≡ take i xs
take-take_written src xs i h = take-append (take i xs) _ i (omega (arith, length-take i xs))

module _ (stale head message : List ℕ) (size : length stale ≡ 1024)
    (room : length head ≤ 1022) where
  abbrev b1 : List ℕ
  b1 = written (head ++ 0 ∷ []) 0 stale

  abbrev kept : List ℕ
  kept = take (1024 - length head - 1) message

  abbrev b2 : List ℕ
  b2 = written (kept ++ 0 ∷ []) (length head) b1

  length-b1 : length b1 ≡ 1024
  length-b1 =
      length-written (head ++ 0 ∷ []) 0 stale (omega (arith, length-append head (0 ∷ []))) ∙ size

  print_head : print_at stale 0 head ≡ ok b1
  unfolding print_at
  print_head =
      rw (take_all 1023 head (omega arith))
        (copy_to_ok (head ++ 0 ∷ []) 0 stale (omega (arith, length-append head (0 ∷ []))))

  fits : length head + length (kept ++ 0 ∷ []) ≤ length b1
  fits =
      omega (
        arith,
        length-b1,
        length-append kept (0 ∷ []),
        length-take (1024 - length head - 1) message,
      )

  print_message : print_at b1 (length head) message ≡ ok b2
  unfolding print_at
  print_message =
      rw
        (
          le→ltb_false 1024 (length head) (omega arith),
          ne→==_false (length head) 1024 (λ e. absurd (omega arith)),
        )
        (copy_to_ok (kept ++ 0 ∷ []) (length head) b1 fits)

  length-b2 : length b2 ≡ 1024
  length-b2 = length-written (kept ++ 0 ∷ []) (length head) b1 fits ∙ length-b1

  -- Where the line's text ends.
  abbrev end : ℕ
  end = min (length head + length message) 1022

  take-b1 : take (length head) b1 ≡ head
  take-b1 =
      ap (take (length head)) (append_assoc head (0 ∷ []) _) ∙ take-append head _ (length head) refl

  take-b2 : take end b2 ≡ take 1022 (head ++ message)
  take-b2 =
      ap
        (λ t. take end (t ++ ((kept ++ 0 ∷ []) ++ drop (length head + length (kept ++ 0 ∷ [])) b1)))
        take-b1
      ∙ ap (λ t. take end (head ++ t)) (append_assoc kept (0 ∷ []) _)
      ∙ ap (take end) (sym (append_assoc head kept _))
      ∙ take_within end (head ++ kept) _
          (omega (arith, length-append head kept, length-take (1024 - length head - 1) message))
      ∙ ap (take end) (sym (take_past head message (1024 - length head - 1) 1023 (omega arith)))
      ∙ take-take_le end 1023 (head ++ message) (omega arith)
      ∙ take_min end 1022 (head ++ message) (omega (arith, length-append head message))

  take-b2_head : take (length head) b2 ≡ head
  take-b2_head =
      take-take_written (kept ++ 0 ∷ []) b1 (length head) (omega (arith, length-b1)) ∙ take-b1

  -- The search finds the byte before the last newlines, and what it leaves is a line.
  module _ (low c : ℕ) (l : low < length head) (g : get_elem? head low ≡ some c) (d : c ≢ 10) where
    at_low : get_elem? b2 low ≡ some c
    at_low =
        sym (get_elem?-take b2 (length head) low l) ∙ ap (λ t. get_elem? t low) (take-b2_head) ∙ g

    here : (pb : ℕ) → pb + 1 ≤ end → pb ≡ length (take (pb + 1) b2) - 1
    here pb h = omega (arith, length-take (pb + 1) b2, length-b2)

    finished :
        (pb : ℕ)
        → back_up b2 end ≡ ok pb
        → Stops b2 end pb
        → (out : List ℕ) × (record_line stale head message ≡ ok out)
          × IsLine (take 1022 (head ++ message)) out
          × (length out ≤ 1023)
    unfolding record_line
    finished pb r s =
        let b3 = written (10 ∷ []) (pb + 1) b2 in
        let in3 : pb + 1 + 1 ≤ length b2 = omega (arith, length-b2, s.below) in
        let n3 : length b3 ≡ 1024 = length-written (10 ∷ []) (pb + 1) b2 in3 ∙ length-b2 in
        let in4 : pb + 2 + 1 ≤ length b3 = omega (arith, n3, s.below) in
        let b4 = written (0 ∷ []) (pb + 2) b3 in
        let body = take (pb + 1) b2 in
        (
          take (pb + 2) b4,
          rw (print_head, print_message, r, copy_to_ok (10 ∷ []) (pb + 1) b2 in3)
              (rw (copy_to_ok (0 ∷ []) (pb + 2) b3 in4)),
          record {
            body = body;
            newlines = s.newlines;
            ended =
                take-take_written (0 ∷ []) b3 (pb + 2) (omega arith)
                ∙ take-written (10 ∷ []) b2 (pb + 1) (pb + 2) (omega arith) (omega arith);
            stripped = sym take-b2 ∙ s.rest;
            no_newline = λ h. s.no_newline (
                some_inj (
                  sym s.at
                  ∙ sym (get_elem?-take b2 (pb + 1) pb (omega arith))
                  ∙ ap (get_elem? body) (here pb s.below)
                  ∙ h));
          },
          omega (arith, length-take (pb + 2) b4, s.below),
        )

-- Where the start of a line leaves room for two bytes and has a byte that is not a newline, `record`
-- never writes past its array, and writes one line: the first 1022 bytes of the start and the
-- message, without the newlines at their end, and one newline.
pub record_line-IsLine :
    (stale head message : List ℕ) (low c : ℕ)
    → length stale ≡ buf_size
    → length head ≤ 1022
    → get_elem? head low ≡ some c
    → c ≢ 10
    → (out : List ℕ) × (record_line stale head message ≡ ok out)
      × IsLine (take 1022 (head ++ message)) out
      × (length out ≤ 1023)
record_line-IsLine stale head message low c size room g d =
    let l = get_elem?_lt head low g in
    let low_b2 = at_low stale head message size room low c l g d in
    let (pb, r, s) =
      back_up_ok (b2 stale head message size room) (end stale head message size room) low c
        (omega (arith, length-b2 stale head message size room)) (omega (arith, l)) low_b2 d in
    finished stale head message size room low c l g d pb r s
