-- ===== src/Filemode/Print.antt =====
-- Printing a mode as an octal number and parsing it again.
use jiaozifs.Prelude.{
  ℕ, zero, suc, ◌+◌, ◌*◌, ◌/◌, ◌%◌, ◌^◌, ◌≤◌, ◌<◌, ◌≡◌, ◌≢◌, refl, ap, sym, ◌∙◌, arith, Bool-cases,
  inl, inr, [], ◌∷◌, ◌++◌,
}
use jiaozifs.Prelude.{ok, Text, ◌==◌, length, length-append, append_assoc, append-nil}
use jiaozifs.Filemode.{parse_octal, octal_digits, leading, new_mode, mode_string, is_octal}

-- The value that the digits of `m` make behind the value `n`.
push : ℕ → ℕ → ℕ → ℕ
push n zero m = n
push n (suc k) m = push n k (m / 8) * 8 + m % 8

-- What is left of `m` without its last `k` digits.
top : ℕ → ℕ → ℕ
top zero m = m
top (suc k) m = top k (m / 8)

push-top : (k m : ℕ) → push (top k m) k m ≡ m
unfolding push top
push-top zero m = refl
push-top (suc k) m = omega (arith, push-top k (m / 8))

-- One more digit.
parse_digit :
    (n m : ℕ) (s : Text)
    → n * 8 + m % 8 < 2 ^ 32
    → parse_octal n ((b'0' + m % 8) ∷ s) ≡ parse_octal (n * 8 + m % 8) s
unfolding parse_octal is_octal
parse_digit n m s h = ground arith

parse_octal-octal_digits :
    (k n m : ℕ) (s : Text)
    → push n k m < 2 ^ 32
    → parse_octal n (octal_digits k m ++ s) ≡ parse_octal (push n k m) s
unfolding octal_digits push
parse_octal-octal_digits zero n m s h = refl
parse_octal-octal_digits (suc k) n m s h =
    ap (parse_octal n) (append_assoc (octal_digits k (m / 8)) ((b'0' + m % 8) ∷ []) s)
    ∙ (parse_octal-octal_digits k n (m / 8) ((b'0' + m % 8) ∷ s) (omega arith)
        ∙ parse_digit (push n k (m / 8)) m s h)

parse_octal-leading :
    (k m : ℕ) (s : Text)
    → top k m ≡ 0
    → m < 2 ^ 32
    → parse_octal 0 (leading k m ++ s) ≡ parse_octal m s
unfolding leading top
parse_octal-leading zero m s e h = rw e
parse_octal-leading (suc k) m s e h = elim (Bool-cases (m == 0)) [
  | inl z ↦ rw z (ap (λ n. parse_octal n s) (ground arith))
  | inr z ↦ rw z (
      ap (parse_octal 0) (append_assoc (leading k (m / 8)) ((b'0' + m % 8) ∷ []) s)
      ∙ (parse_octal-leading k (m / 8) ((b'0' + m % 8) ∷ s) e (omega arith)
          ∙ (parse_digit (m / 8) m s (omega arith) ∙ ap (λ n. parse_octal n s) (omega arith))))
]

new_mode-parse_octal : (s : Text) → s ≢ [] → new_mode s ≡ parse_octal 0 s
unfolding new_mode
new_mode-parse_octal [] h = absurd (h refl)
new_mode-parse_octal (c ∷ s) h = refl

length-octal_digits : (k m : ℕ) → length (octal_digits k m) ≡ k
unfolding octal_digits
length-octal_digits zero m = refl
length-octal_digits (suc k) m = omega (
  arith,
  length-append (octal_digits k (m / 8)) ((b'0' + m % 8) ∷ []),
  length-octal_digits k (m / 8),
)

mode_string-length-ge : (m : ℕ) → 7 ≤ length (mode_string m)
unfolding mode_string
mode_string-length-ge m =
    omega
      (arith, length-append (leading 4 (m / 2097152)) (octal_digits 7 m), length-octal_digits 7 m)

parse_octal-nil : (n : ℕ) → parse_octal n [] ≡ ok n
unfolding parse_octal
parse_octal-nil n = refl

parse_octal-mode_string : (m : ℕ) → m < 2 ^ 32 → parse_octal 0 (mode_string m) ≡ ok m
unfolding mode_string top
parse_octal-mode_string m h =
    let same : top 7 m ≡ m / 2097152 = omega arith in
    let whole : push (m / 2097152) 7 m ≡ m = ap (λ t. push t 7 m) (sym same) ∙ push-top 7 m in
    parse_octal-leading 4 (m / 2097152) (octal_digits 7 m) (omega arith) (omega arith)
    ∙ (ap (parse_octal (m / 2097152)) (sym (append-nil (octal_digits 7 m)))
        ∙ (parse_octal-octal_digits 7 (m / 2097152) m [] (omega (arith, whole))
            ∙ (ap (λ n. parse_octal n []) whole ∙ parse_octal-nil m)))

-- A mode of 32 bits is what parsing gives for its printed form.
pub new_mode-mode_string : (m : ℕ) → m < 2 ^ 32 → new_mode (mode_string m) ≡ ok m
new_mode-mode_string m h =
    new_mode-parse_octal (mode_string m)
      (λ e. absurd (omega (arith, ap length e, mode_string-length-ge m)))
    ∙ parse_octal-mode_string m h
