-- ===== src/Patch/Pointer.antt =====
-- patch.go: `EscapeJSONPointer` against the reading of RFC 6901.
use Prim.Native.Char.{code}
use text.Mathlib.TextEquality.{Char-path}
use sandbox_mommy.Base.{
  ℕ, String, Bool, true, false, ◌||◌, ◌≡◌, refl, sym, ap, arith, Bool-cases, inl, inr,
  if◌then◌else◌,
}
use sandbox_mommy.Base.Int.{eqb}
use sandbox_mommy.Patch.{escape_json_pointer, tilde, slash}

-- RFC 6901, section 4: `~1` stands for `/` and `~0` for `~`; a tilde before anything else stays.
-- The flag says that a tilde has been read.
unfoldable pub read_pointer : Bool → String → String
read_pointer false String.[] = String.[]
read_pointer true String.[] = "~"
read_pointer false (String.◌∷◌ c s) =
    let pending = read_pointer true s in
    let plain = String.◌∷◌ c (read_pointer false s) in if eqb (code c) tilde then pending else plain
read_pointer true (String.◌∷◌ c s) =
    let rest = read_pointer false s in
    let again = String.◌∷◌ "~" (read_pointer true s) in
    if eqb (code c) b'0'
    then String.◌∷◌ "~" rest
    else if eqb (code c) b'1'
    then String.◌∷◌ "/" rest
    else if eqb (code c) tilde
    then again
    else String.◌∷◌ "~" (String.◌∷◌ c rest)

eqb_eq : (m n : ℕ) → eqb m n ≡ true → m ≡ n
eqb_eq m n h = ground arith

unfoldable pub has_slash : String → Bool
has_slash String.[] = false
has_slash (String.◌∷◌ c s) = eqb (code c) slash || has_slash s

read_pointer-escape : (s : String) → read_pointer false (escape_json_pointer s) ≡ s
unfolding read_pointer escape_json_pointer
read_pointer-escape String.[] = refl
read_pointer-escape (String.◌∷◌ c s) = elim (Bool-cases (eqb (code c) tilde)) [
  | inl e ↦
      rw (e, read_pointer-escape s)
        (ap (λ d. String.◌∷◌ d s) (sym (Char-path c "~" (eqb_eq _ _ e))))
  | inr differs ↦ elim (Bool-cases (eqb (code c) slash)) [
    | inl e ↦
        rw (differs, e, read_pointer-escape s)
          (ap (λ d. String.◌∷◌ d s) (sym (Char-path c "/" (eqb_eq _ _ e))))
    | inr plain ↦ rw (differs, plain, differs, read_pointer-escape s) refl
  ]
]

has_slash-escape : (s : String) → has_slash (escape_json_pointer s) ≡ false
unfolding has_slash escape_json_pointer
has_slash-escape String.[] = refl
has_slash-escape (String.◌∷◌ c s) = elim (Bool-cases (eqb (code c) tilde)) [
  | inl e ↦ rw e (has_slash-escape s)
  | inr differs ↦ elim (Bool-cases (eqb (code c) slash)) [
    | inl e ↦ rw (differs, e) (has_slash-escape s)
    | inr plain ↦ rw (differs, plain, plain) (has_slash-escape s)
  ]
]

-- Reading an escaped text by RFC 6901 gives the text back, and an escaped text holds no slash, so
-- it is one reference token of a path.
pub escape_json_pointer_lem :
    (s : String)
    → (read_pointer false (escape_json_pointer s) ≡ s) × (has_slash (escape_json_pointer s) ≡ false)
escape_json_pointer_lem s = (read_pointer-escape s, has_slash-escape s)
