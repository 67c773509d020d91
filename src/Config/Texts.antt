-- ===== src/Config/Texts.antt =====
-- The arrays of src/config/config.cpp: a text that is copied to one, and the message of the day.
use tibia_login_orig.Base.{
  ℕ, zero, suc, ◌+◌, ◌-◌, ◌≤◌, ◌<◌, ◌≡◌, refl, ap, ◌∙◌, inl, inr, true, false, ◌==◌, Bool-cases,
  some, List, [], ◌∷◌, ◌++◌, length, length-append, length-take, take, replicate, length-replicate,
  get_or, store_fits, overwrite, take-overwrite, length-overwrite, All, All-append, All-take, ◌&&◌,
  ltb, if◌then◌else◌, arith,
}
use tibia_login_orig.Strings.{c_string, string_copy, string_hash}
use tibia_login_orig.Strings.Laws.{string_copy_n_lem}
use tibia_login_orig.Status.{skip_line}
use tibia_login_orig.Config.{string_buf_copy, put_text, parse_motd}

-- No terminator inside.
abbrev pub IsCString : List ℕ → Type 0
IsCString = All (λ c. 1 ≤ c)

pub c_string_lem :
    (v dest : List ℕ) → IsCString v → take (length v + 1) dest ≡ v ++ 0 ∷ [] → c_string dest ≡ v
unfolding c_string
c_string_lem [] [] h e = cc
c_string_lem [] (d ∷ dest) h e = ground arith
c_string_lem (c ∷ v) [] h e = absurd (
    omega
      (arith, ap length e, length-take {A = ℕ} (length (c ∷ v) + 1) [], length-append v (0 ∷ [])))
c_string_lem (c ∷ v) (d ∷ dest) h e = ground (arith, c_string_lem v dest)

-- An array that holds a text, or the empty text if it has no room for it.
pub record Holds (n : ℕ) (value field : List ℕ) : Type 0 where
  pub size : length field ≡ n
  pub text : c_string field ≡ (if ltb (length value) n then value else [])

pub string_buf_copy-Holds :
    (n : ℕ) (dest src : List ℕ)
    → length dest ≡ n
    → 1 ≤ n
    → IsCString src
    → (dest' : List ℕ) × (string_buf_copy dest src ≡ some dest') × Holds n src dest'
unfolding string_copy
string_buf_copy-Holds n dest src size room h =
    let (dest', run, kept, whole, cut) = string_copy_n_lem dest src (omega (arith, size)) in
    (
      dest',
      rw run refl,
      record {
        size = kept ∙ size;
        text = elim (Bool-cases (ltb (length src) n)) [
          | inl fits ↦ rw fits (c_string_lem src dest' h (whole (ground (arith, size))))
          | inr over ↦ rw over (c_string_lem [] dest' tt (cut (ground (arith, size))))
        ];
      },
    )

-- What `printf` promises of "%u\n%s": the digits of a number of 32 bits, a new line and the text.
pub record Prints (print : ℕ → List ℕ → List ℕ) : Type 0 where
  pub number : ℕ → List ℕ
  pub digits : (h : ℕ) → All (λ c. (b'0' ≤ c) × (c ≤ b'9')) (number h)
  pub few : (h : ℕ) → length (number h) ≤ 10
  pub prints : (h : ℕ) (text : List ℕ) → print h text ≡ number h ++ 10 ∷ text

-- What follows the first line of digits.
skip_line_lem :
    (number text : List ℕ)
    → All (λ c. (b'0' ≤ c) × (c ≤ b'9')) number
    → skip_line (number ++ 10 ∷ text) ≡ text
unfolding skip_line
skip_line_lem [] text h = refl
skip_line_lem (c ∷ number) text h =
    let other : (c == 10) ≡ false = ground (arith, h.0) in rw other (skip_line_lem number text h.1)

take_line :
    (n : ℕ) (number text : List ℕ)
    → length number < n
    → take n (number ++ 10 ∷ text) ≡ number ++ 10 ∷ take (n - (length number + 1)) text
take_line zero number text h = absurd (omega arith)
take_line (suc n) [] text h = ap (λ k. 10 ∷ take k text) (omega arith)
take_line (suc n) (c ∷ number) text h =
    ap (◌∷◌ c)
      (take_line n number text (omega arith) ∙ ap (λ k. number ++ 10 ∷ take k text) (omega arith))

-- A text that is put into an array, which it fits or is cut off to fit.
put_text-Holds :
    (dest text : List ℕ)
    → length dest ≡ 256
    → IsCString text
    → (dest' : List ℕ) × (put_text dest text ≡ some dest')
      × (length dest' ≡ 256)
      × (c_string dest' ≡ take 255 text)
put_text-Holds dest text size h =
    let front = take (length dest - 1) text in
    let same : length dest - 1 ≡ 255 = omega (arith, size) in
    let short : length (front ++ 0 ∷ []) ≡ length front + 1 = length-append front (0 ∷ []) in
    let room : 0 + length (front ++ 0 ∷ []) ≤ length dest =
      omega (arith, short, size, length-take (length dest - 1) text) in
    (
      overwrite dest 0 (front ++ 0 ∷ []),
      store_fits dest 0 (front ++ 0 ∷ []) room,
      length-overwrite dest 0 (front ++ 0 ∷ []) room ∙ size,
      c_string_lem front _ (All-take (λ c. 1 ≤ c) (length dest - 1) text h) (
            take-overwrite dest 0 (front ++ 0 ∷ []) (omega (arith, short))
              (omega (arith, room, short)))
          ∙ ap (λ n. take n text) same,
    )

front_of : (array : List ℕ) → (get_or array 0 0 == 0) ≡ (length (c_string array) == 0)
unfolding c_string
front_of [] = refl
front_of (c ∷ cs) = ground arith

module _ (print : ℕ → List ℕ → List ℕ) (p : Prints print) where
  open p use {number, digits, few, prints}

  -- The message of the day behind the hash: none if it is empty or has no room.
  unfoldable pub motd_of : List ℕ → List ℕ
  motd_of message =
      if ltb 0 (length message) && ltb (length message) 256
      then number (string_hash message)
        ++ 10 ∷ take (254 - length (number (string_hash message))) message
      else []

  printed-IsCString : (h : ℕ) (text : List ℕ) → IsCString text → IsCString (print h text)
  printed-IsCString h text c = rw (prints h text) (
      All-append (λ c. 1 ≤ c) (number h) (10 ∷ text) (digits-IsCString (number h) (digits h))
        (omega arith, c))
    where
      digits-IsCString : (ds : List ℕ) → All (λ c. (b'0' ≤ c) × (c ≤ b'9')) ds → IsCString ds
      digits-IsCString [] d = tt
      digits-IsCString (c ∷ ds) d = (omega (arith, d.0.0), digits-IsCString ds d.1)

  pub parse_motd-Holds :
      (dest message : List ℕ)
      → length dest ≡ 256
      → c_string dest ≡ []
      → IsCString message
      → (motd : List ℕ) × (parse_motd print dest message ≡ some motd)
        × (length motd ≡ 256)
        × (c_string motd ≡ motd_of message)
  unfolding parse_motd motd_of
  parse_motd-Holds dest message size clear h =
      let (buf, run, held) =
        string_buf_copy-Holds 256 (replicate 256 0) message (length-replicate {A = ℕ} 256 0)
          (omega arith) h in
      elim (Bool-cases (ltb 0 (length message) && ltb (length message) 256)) [
        | inl fits ↦
            let short : ltb (length message) 256 ≡ true = ground arith in
            let whole : c_string buf ≡ message = rw short at held.text in
            let there : (get_or buf 0 0 == 0) ≡ false =
              ground (arith, front_of buf, ap length whole) in
            let (motd, put, kept, text) =
              put_text-Holds dest (print (string_hash message) message) size
                (printed-IsCString (string_hash message) message h) in
            (
              motd,
              rw (run, there, whole) put,
              kept,
              rw fits (
                  text
                  ∙ ap (take 255) (prints (string_hash message) message)
                  ∙ take_line 255 (number (string_hash message)) message
                      (omega (arith, few (string_hash message)))
                  ∙ ap (λ k. number (string_hash message) ++ 10 ∷ take k message) (omega arith)),
            )
        | inr none_left ↦
            let empty : (get_or buf 0 0 == 0) ≡ true = ground (arith, front_of buf, held.text) in
            (dest, rw (run, empty) refl, size, rw none_left clear)
      ]
