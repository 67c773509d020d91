-- ===== src/Xml/Laws.antt =====
-- What src/status/xml_builder.cpp appends, on every buffer and at every position.
use tibia_login_orig.Base.{
  ℕ, zero, suc, ◌+◌, ◌-◌, ◌≤◌, ◌<◌, ◌≡◌, refl, sym, ap, ap₂, ◌∙◌, inl, inr, ◌⊎◌, All, All-append,
  Bool-cases, Option, some, List, [], ◌∷◌, ◌++◌, append-nil, append_assoc, length, length-append,
  length-take, take, take_all, ltb, ltb→lt, ltb→le, lt→ltb, store_fits, overwrite, length-overwrite,
  take-overwrite, ◌>>=◌, min, arith,
}
use tibia_login_orig.Base.Slices.{take-take, take-append_front}
use tibia_login_orig.Xml.{
  XmlBuffer, xml_null_terminate, xml_append_char, xml_append_string, xml_entity,
  xml_append_string_escaped,
}

abbrev pub IsSound : XmlBuffer → Type 0
IsSound b = b.size ≤ length b.bytes

-- The text so far, as much of it as the buffer holds.
abbrev pub shown : XmlBuffer → List ℕ
shown b = take (min b.size b.position) b.bytes

-- `result` counts `text` and shows it behind what `b` showed, cut off at the size.
pub record Shows (b : XmlBuffer) (text : List ℕ) (result : Option XmlBuffer) : Type 0 where
  pub after : XmlBuffer
  pub returns : result ≡ some after
  pub size_kept : after.size ≡ b.size
  pub length_kept : length after.bytes ≡ length b.bytes
  pub counted : after.position ≡ b.position + length text
  pub holds : shown after ≡ take b.size (shown b ++ text)

cut_again : (n : ℕ) (xs ys : List ℕ) → take n (take n xs ++ ys) ≡ take n (xs ++ ys)
cut_again zero xs ys = refl
cut_again (suc n) [] ys = refl
cut_again (suc n) (x ∷ xs) ys = ap (◌∷◌ x) (cut_again n xs ys)

pub xml_append_char-Shows :
    (c : ℕ) (b : XmlBuffer) → IsSound b → Shows b (c ∷ []) (xml_append_char c b)
unfolding xml_append_char
xml_append_char-Shows c b s = elim (Bool-cases (ltb b.position b.size)) [
  | inl fits ↦
      let room : b.position < b.size = ltb→lt b.position b.size fits in
      record {
        after = record b {
          bytes = overwrite b.bytes b.position (c ∷ []);
          position = b.position + 1;
        };
        returns = rw (fits, store_fits b.bytes b.position (c ∷ []) (omega arith)) refl;
        size_kept = refl;
        length_kept = length-overwrite b.bytes b.position (c ∷ []) (omega arith);
        counted = refl;
        holds =
            take-overwrite b.bytes b.position (c ∷ []) {stop = min b.size (b.position + 1)}
              (omega arith) (omega arith)
            ∙ ap (λ (n : ℕ). take n b.bytes ++ c ∷ []) (omega arith)
            ∙ sym (
                take_all b.size (shown b ++ c ∷ []) (
                  omega (
                    arith,
                    length-append (shown b) (c ∷ []),
                    length-take (min b.size b.position) b.bytes,
                  )));
      }
  | inr full ↦
      let past : b.size ≤ b.position = ltb→le b.position b.size full in
      record {
        after = record b { position = b.position + 1 };
        returns = rw full refl;
        size_kept = refl;
        length_kept = refl;
        counted = refl;
        holds =
            ap (λ (n : ℕ). take n b.bytes) (omega arith)
            ∙ sym (
                take-append_front b.size (shown b) (c ∷ [])
                  (omega (arith, length-take (min b.size b.position) b.bytes))
                ∙ take_all b.size (shown b)
                    (omega (arith, length-take (min b.size b.position) b.bytes)));
      }
]

pub nothing-Shows : (b : XmlBuffer) → IsSound b → Shows b [] (some b)
nothing-Shows b s = record {
  after = b;
  returns = refl;
  size_kept = refl;
  length_kept = refl;
  counted = omega arith;
  holds = sym (
      ap (take b.size) (append-nil (shown b))
      ∙ take_all b.size (shown b) (omega (arith, length-take (min b.size b.position) b.bytes)));
}

pub then-Shows :
    (b : XmlBuffer) (first rest : List ℕ) (result : Option XmlBuffer)
    (next : XmlBuffer → Option XmlBuffer)
    → IsSound b
    → Shows b first result
    → ((c : XmlBuffer) → IsSound c → Shows c rest (next c))
    → Shows b (first ++ rest) (result >>= next)
then-Shows b first rest result next s x step =
    let y = step x.after (omega (arith, x.size_kept, x.length_kept)) in
    record {
      after = y.after;
      returns = rw x.returns y.returns;
      size_kept = y.size_kept ∙ x.size_kept;
      length_kept = y.length_kept ∙ x.length_kept;
      counted = omega (arith, x.counted, y.counted, length-append first rest);
      holds =
          y.holds
          ∙ ap₂ (λ (n : ℕ) t. take n (t ++ rest)) x.size_kept x.holds
          ∙ cut_again b.size (shown b ++ first) rest
          ∙ ap (take b.size) (append_assoc (shown b) first rest);
    }

pub xml_append_string-Shows :
    (str : List ℕ) (b : XmlBuffer) → IsSound b → Shows b str (xml_append_string str b)
unfolding xml_append_string
xml_append_string-Shows [] b s = nothing-Shows b s
xml_append_string-Shows (c ∷ cs) b s =
    then-Shows b (c ∷ []) cs (xml_append_char c b) (xml_append_string cs) s
      (xml_append_char-Shows c b s) (λ d t. xml_append_string-Shows cs d t)

abbrev pub escaped : List ℕ → List ℕ
escaped [] = []
escaped (c ∷ cs) = xml_entity c ++ escaped cs

-- An escaped text goes in with each character's entity, cut off at the size of the buffer; the
-- position counts all of it, and no call faults.
pub xml_append_string_escaped-Shows :
    (str : List ℕ) (b : XmlBuffer)
    → IsSound b
    → Shows b (escaped str) (xml_append_string_escaped str b)
unfolding xml_append_string_escaped
xml_append_string_escaped-Shows [] b s = nothing-Shows b s
xml_append_string_escaped-Shows (c ∷ cs) b s =
    then-Shows b (xml_entity c) (escaped cs) (xml_append_string (xml_entity c) b)
      (xml_append_string_escaped cs) s (xml_append_string-Shows (xml_entity c) b s)
      (λ d t. xml_append_string_escaped-Shows cs d t)

-- The ASCII codes of `"`, `'`, `<` and `>`.
abbrev pub IsMarkup : ℕ → Type 0
IsMarkup c = (c ≡ 34) ⊎ (c ≡ 39) ⊎ (c ≡ b'<') ⊎ (c ≡ b'>')

abbrev pub HasNone : (ℕ → Type 0) → List ℕ → Type 0
HasNone P = All (λ c. ¬ P c)

xml_entity-HasNone : (c : ℕ) → HasNone IsMarkup (xml_entity c)
unfolding xml_entity
xml_entity-HasNone c = ground arith

-- An escaped text has no quote and no angle bracket in it, whatever it was made of.
pub escaped-HasNone : (str : List ℕ) → HasNone IsMarkup (escaped str)
escaped-HasNone [] = tt
escaped-HasNone (c ∷ cs) =
    All-append (λ k. ¬ IsMarkup k) (xml_entity c) (escaped cs) (xml_entity-HasNone c)
      (escaped-HasNone cs)

-- Terminating ends the text at the position, or one byte in front of the buffer's end.
pub xml_null_terminate_lem :
    (b : XmlBuffer)
    → IsSound b
    → 1 ≤ b.size
    → (b' : XmlBuffer) × (xml_null_terminate b ≡ some b')
      × (take (min b.position (b.size - 1) + 1) b'.bytes
          ≡ take (min b.position (b.size - 1)) (shown b) ++ 0 ∷ [])
      × (length b'.bytes ≡ length b.bytes)
unfolding xml_null_terminate
xml_null_terminate_lem b s room = elim (Bool-cases (ltb b.position b.size)) [
  | inl inside ↦
      let below : b.position < b.size = ltb→lt b.position b.size inside in
      (
        record b { bytes = overwrite b.bytes b.position (0 ∷ []) },
        rw (inside, store_fits b.bytes b.position (0 ∷ []) (omega arith)) refl,
        take-overwrite b.bytes b.position (0 ∷ []) {stop = min b.position (b.size - 1) + 1}
              (omega arith) (omega arith)
            ∙ ap (λ t. t ++ 0 ∷ [])
                (ap (λ (n : ℕ). take n b.bytes) (omega arith)
                  ∙ sym (
                      take-take (min b.position (b.size - 1)) (min b.size b.position) b.bytes
                        (omega arith))),
        length-overwrite b.bytes b.position (0 ∷ []) (omega arith),
      )
  | inr past ↦
      let beyond : b.size ≤ b.position = ltb→le b.position b.size past in
      (
        record b { bytes = overwrite b.bytes (b.size - 1) (0 ∷ []) },
        rw (past, lt→ltb 0 b.size room, store_fits b.bytes (b.size - 1) (0 ∷ []) (omega arith))
            refl,
        take-overwrite b.bytes (b.size - 1) (0 ∷ []) {stop = min b.position (b.size - 1) + 1}
              (omega arith) (omega arith)
            ∙ ap (λ t. t ++ 0 ∷ [])
                (ap (λ (n : ℕ). take n b.bytes) (omega arith)
                  ∙ sym (
                      take-take (min b.position (b.size - 1)) (min b.size b.position) b.bytes
                        (omega arith))),
        length-overwrite b.bytes (b.size - 1) (0 ∷ []) (omega arith),
      )
]
