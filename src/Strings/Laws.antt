-- ===== src/Strings/Laws.antt =====
-- What src/common/string_utils.cpp stores and compares.
use tibia_login_orig.Base.{
  ℕ, zero, suc, ◌+◌, ◌-◌, ◌≤◌, ◌<◌, ◌≡◌, ◌↔◌, refl, sym, ap, ap₂, ◌∙◌, inl, inr, Bool-cases, true,
  ◌&&◌, Option, none, some, List, [], ◌∷◌, ◌++◌, map, length, length-append, length-take, take,
  take_all, ltb, leb, ltb→lt, ltb→le, lt→ltb, le→ltb, leb→le, leb→lt, All, store_fits, overwrite,
  length-overwrite, take-overwrite, Option-cases, ◌>>=◌, arith, min, append-nil, append_assoc,
}
use tibia_login_orig.Base.Slices.{take-append_front, take-take}
use tibia_login_orig.Strings.{
  string_equals, string_equals_ignore_case, tolower, string_copy_n, escape_letter, escape_put,
  escape_char, escape_loop, string_escape,
}

-- The bytes of a C string: none is the terminator.
abbrev pub IsText : List ℕ → Type 0
IsText = All (λ c. 1 ≤ c)

-- Two strings are equal when they have the same bytes.
pub string_equals_iff : (a b : List ℕ) → IsText a → IsText b → (string_equals a b ≡ true) ↔ (a ≡ b)
unfolding string_equals
string_equals_iff [] [] p q = (λ _. refl, λ _. refl)
string_equals_iff [] (d ∷ b) p q = ground arith
string_equals_iff (c ∷ a) [] p q = ground arith
string_equals_iff (c ∷ a) (d ∷ b) p q = ground (arith, string_equals_iff a b p.1 q.1)

-- Ignoring case, when they have the same bytes in lower case.
pub string_equals_ignore_case_iff :
    (a b : List ℕ)
    → IsText a
    → IsText b
    → (string_equals_ignore_case a b ≡ true) ↔ (map tolower a ≡ map tolower b)
unfolding string_equals_ignore_case
string_equals_ignore_case_iff [] [] p q = (λ _. refl, λ _. refl)
string_equals_ignore_case_iff [] (d ∷ b) p q = ground arith
string_equals_ignore_case_iff (c ∷ a) [] p q = ground arith
string_equals_ignore_case_iff (c ∷ a) (d ∷ b) p q =
    ground (arith, string_equals_ignore_case_iff a b p.1 q.1)

-- A copy stores the string and a terminator if there is room for both, and the empty string if
-- not; it says which, and stays inside the array.
pub string_copy_n_lem :
    (dest src : List ℕ)
    → 1 ≤ length dest
    → (dest' : List ℕ) × (string_copy_n dest src ≡ some (ltb (length src) (length dest), dest'))
      × (length dest' ≡ length dest)
      × (length src < length dest → take (length src + 1) dest' ≡ src ++ 0 ∷ [])
      × (length dest ≤ length src → take 1 dest' ≡ 0 ∷ [])
unfolding string_copy_n
string_copy_n_lem dest src room =
    elim (Bool-cases (ltb (length src) (length dest) && ltb 0 (length src))) [
      | inl whole ↦
          let fits : length src < length dest = ground arith in
          let stop : 0 + length (src ++ 0 ∷ []) ≡ length src + 1 =
            omega (arith, length-append src (0 ∷ [])) in
          (
            overwrite dest 0 (src ++ 0 ∷ []),
            rw (whole, store_fits dest 0 (src ++ 0 ∷ []) (omega (arith, stop))) refl,
            length-overwrite dest 0 (src ++ 0 ∷ []) (omega (arith, stop)),
            λ _. take-overwrite dest 0 (src ++ 0 ∷ []) stop (omega arith),
            λ h. absurd (omega arith),
          )
      | inr cut ↦
          let cleared : take 1 (overwrite dest 0 (0 ∷ [])) ≡ 0 ∷ [] =
            take-overwrite dest 0 (0 ∷ []) (omega arith) room in
          (
            overwrite dest 0 (0 ∷ []),
            rw (cut, store_fits dest 0 (0 ∷ []) room) refl,
            length-overwrite dest 0 (0 ∷ []) room,
            λ h. empty_source src (overwrite dest 0 (0 ∷ [])) (ground arith) cleared,
            λ h. cleared,
          )
    ]
  where
    empty_source :
        (t d : List ℕ) → length t ≡ 0 → take 1 d ≡ 0 ∷ [] → take (length t + 1) d ≡ t ++ 0 ∷ []
    empty_source [] d e c = c
    empty_source (x ∷ t) d e c = absurd (omega arith)

-- What an escaped string is.
pub escape_text : ℕ → List ℕ
escape_text c = elim (escape_letter c) [ none ↦ c ∷ [] | some letter ↦ 92 ∷ letter ∷ [] ]

abbrev pub escaped : List ℕ → List ℕ
escaped [] = []
escaped (c ∷ cs) = escape_text c ++ escaped cs

-- `result` is an array of the same size that holds, in front of its new position, what stood in
-- front of `at` and `text`, cut off at the end of the array.
record Cuts (dest : List ℕ) (at : ℕ) (text : List ℕ) (result : Option (List ℕ × ℕ)) : Type 0 where
  dest' : List ℕ
  stop : ℕ
  returns : result ≡ some (dest', stop)
  same : length dest' ≡ length dest
  inside : stop ≤ length dest
  holds : take stop dest' ≡ take (length dest) (take at dest ++ text)

cut_again : (n : ℕ) (xs ys : List ℕ) → take n (take n xs ++ ys) ≡ take n (xs ++ ys)
cut_again zero xs ys = refl
cut_again (suc n) [] ys = refl
cut_again (suc n) (x ∷ xs) ys = ap (◌∷◌ x) (cut_again n xs ys)

module _ (dest : List ℕ) (at : ℕ) (h : at ≤ length dest) where
  stop_there : (text : List ℕ) → at ≡ length dest → Cuts dest at text (some (dest, at))
  stop_there text e = record {
    dest' = dest;
    stop = at;
    returns = refl;
    same = refl;
    inside = h;
    holds = sym (
        take-append_front (length dest) (take at dest) text (omega (arith, length-take at dest))
        ∙ take_all (length dest) (take at dest) (omega (arith, length-take at dest)));
  }

  escape_put-Cuts : (c : ℕ) → Cuts dest at (c ∷ []) (escape_put c dest at)
  unfolding escape_put
  escape_put-Cuts c = elim (Bool-cases (leb (at + 1) (length dest))) [
    | inl fits ↦
        let room : at + 1 ≤ length dest = leb→le (at + 1) (length dest) fits in
        record {
          dest' = overwrite dest at (c ∷ []);
          stop = at + 1;
          returns = rw (fits, store_fits dest at (c ∷ []) room) refl;
          same = length-overwrite dest at (c ∷ []) room;
          inside = room;
          holds =
              take-overwrite dest at (c ∷ []) refl room
              ∙ sym (
                  take_all (length dest) (take at dest ++ c ∷ [])
                    (omega (arith, length-append (take at dest) (c ∷ []), length-take at dest)));
        }
    | inr full ↦ rw full (stop_there (c ∷ []) (omega (arith, leb→lt (at + 1) (length dest) full)))
  ]

-- One cut behind another.
then-Cuts :
    (dest : List ℕ) (at : ℕ) (first rest : List ℕ) (result : Option (List ℕ × ℕ))
    (next : List ℕ × ℕ → Option (List ℕ × ℕ))
    → Cuts dest at first result
    → ((d : List ℕ) (p : ℕ) → p ≤ length d → Cuts d p rest (next (d, p)))
    → Cuts dest at (first ++ rest) (result >>= next)
then-Cuts dest at first rest result next a step =
    let b = step a.dest' a.stop (omega (arith, a.same, a.inside)) in
    record {
      dest' = b.dest';
      stop = b.stop;
      returns = rw a.returns b.returns;
      same = b.same ∙ a.same;
      inside = omega (arith, b.inside, a.same);
      holds =
          b.holds
          ∙ ap₂ (λ (n : ℕ) t. take n (t ++ rest)) a.same a.holds
          ∙ cut_again (length dest) (take at dest ++ first) rest
          ∙ ap (take (length dest)) (append_assoc (take at dest) first rest);
    }

escape_char-Cuts :
    (c : ℕ) (dest : List ℕ) (at : ℕ)
    → at ≤ length dest
    → Cuts dest at (escape_text c) (escape_char c dest at)
unfolding escape_char escape_text
escape_char-Cuts c dest at h = elim (Option-cases (escape_letter c)) [
  | inl e ↦ rw (e, escape_char, escape_text) (escape_put-Cuts dest at h c)
  | inr (letter, e) ↦
      rw (e, escape_char, escape_text)
        (then-Cuts dest at (92 ∷ []) (letter ∷ []) (escape_put 92 dest at)
          (λ r. escape_put letter r.0 r.1) (escape_put-Cuts dest at h 92)
          (λ d p k. escape_put-Cuts d p k letter))
]

escape_loop-Cuts :
    (src dest : List ℕ) (at : ℕ)
    → at ≤ length dest
    → Cuts dest at (escaped src) (escape_loop src dest at)
unfolding escape_loop
escape_loop-Cuts [] dest at h = record {
  dest' = dest;
  stop = at;
  returns = refl;
  same = refl;
  inside = h;
  holds = sym (
      ap (take (length dest)) (append-nil (take at dest))
      ∙ take_all (length dest) (take at dest) (omega (arith, length-take at dest)));
}
escape_loop-Cuts (c ∷ cs) dest at h = elim (Bool-cases (ltb at (length dest))) [
  | inl more ↦ rw more (
      then-Cuts dest at (escape_text c) (escaped cs) (escape_char c dest at)
        (λ r. escape_loop cs r.0 r.1) (escape_char-Cuts c dest at h)
        (λ d p k. escape_loop-Cuts cs d p k))
  | inr full ↦
      rw full
        (stop_there dest at h (escaped (c ∷ cs)) (omega (arith, ltb→le at (length dest) full)))
]

-- An escaped copy never leaves its array: it stores the escaped string and a terminator and returns
-- true if there is room for both, and else cuts it off in front of the last byte, which is the
-- terminator, and returns false.
pub string_escape_lem :
    (dest src : List ℕ)
    → 1 ≤ length dest
    → (dest' : List ℕ) × (string_escape dest src
        ≡ some (ltb (length (escaped src)) (length dest), dest'))
      × (length dest' ≡ length dest)
      × (length (escaped src) < length dest
          → take (length (escaped src) + 1) dest' ≡ escaped src ++ 0 ∷ [])
      × (length dest ≤ length (escaped src)
          → dest' ≡ take (length dest - 1) (escaped src) ++ 0 ∷ [])
unfolding string_escape
string_escape_lem dest src room =
    let c = escape_loop-Cuts src dest 0 (omega arith) in
    let size : c.stop ≡ min (length dest) (length (escaped src)) = omega (
      arith,
      ap length c.holds,
      length-take c.stop c.dest',
      length-take (length dest) (escaped src),
      c.same,
      c.inside,
    ) in
    elim (Bool-cases (ltb c.stop (length dest))) [
      | inl whole ↦
          let below : c.stop < length dest = ltb→lt c.stop (length dest) whole in
          let all_of : length (escaped src) ≡ c.stop = omega (arith, size) in
          (
            overwrite c.dest' c.stop (0 ∷ []),
            rw
                (
                  c.returns,
                  whole,
                  store_fits c.dest' c.stop (0 ∷ []) (omega (arith, c.same)),
                  lt→ltb (length (escaped src)) (length dest) (omega (arith, all_of)),
                )
                refl,
            length-overwrite c.dest' c.stop (0 ∷ []) (omega (arith, c.same)) ∙ c.same,
            λ _.
                take-overwrite c.dest' c.stop (0 ∷ []) (omega (arith, all_of))
                  (omega (arith, c.same, all_of))
                ∙ ap (λ t. t ++ 0 ∷ [])
                    (c.holds ∙ take_all (length dest) (escaped src) (omega (arith, all_of))),
            λ h. absurd (omega (arith, all_of)),
          )
      | inr cut ↦
          let full : c.stop ≡ length dest =
            omega (arith, ltb→le c.stop (length dest) cut, c.inside) in
          let last : length dest - 1 + 1 ≡ length c.dest' = omega (arith, c.same) in
          (
            overwrite c.dest' (length dest - 1) (0 ∷ []),
            rw
                (
                  c.returns,
                  cut,
                  lt→ltb 0 (length dest) room,
                  store_fits c.dest' (length dest - 1) (0 ∷ []) (omega (arith, last)),
                  le→ltb (length (escaped src)) (length dest) (omega (arith, full, size)),
                )
                refl,
            length-overwrite c.dest' (length dest - 1) (0 ∷ []) (omega (arith, last)) ∙ c.same,
            λ h. absurd (omega (arith, full, size)),
            λ _.
                sym (
                  take_all (length c.dest') (overwrite c.dest' (length dest - 1) (0 ∷ [])) (
                    omega (
                      arith,
                      length-overwrite c.dest' (length dest - 1) (0 ∷ []) (omega (arith, last)),
                    )))
                ∙ take-overwrite c.dest' (length dest - 1) (0 ∷ []) last (omega arith)
                ∙ ap (λ t. t ++ 0 ∷ [])
                    (sym (take-take (length dest - 1) c.stop c.dest' (omega (arith, full)))
                      ∙ ap (take (length dest - 1)) c.holds
                      ∙ take-take (length dest - 1) (length dest) (escaped src) (omega arith)),
          )
    ]
