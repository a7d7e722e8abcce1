-- ===== src/Agent/Spool/Names.antt =====
-- spool.go: the files are named by a rising sequence "so that lexical order is send order".
use native.Mathlib.Decide.{dec_lt, ℕ_discrete}
use native.Mathlib.Nat.{pow-suc}
use smotryashchiy.Base.{
  lex_lt, ℕ, zero, suc, ◌+◌, ◌*◌, ◌/◌, ◌%◌, ◌^◌, ◌<◌, ◌≡◌, ◌↔◌, refl, sym, ap, ◌∙◌, true, false, [],
  ◌∷◌, ◌++◌, arith, Bytes, bytes_eq, bytes_eq_iff, codes, starts_with, append_assoc, ◌≢◌, length,
  length-append, if◌then◌else◌,
}
use smotryashchiy.Agent.Spool.{digits, name_of, next_seq}

lex_lt-append :
    (xs ys us vs : Bytes)
    → length xs ≡ length ys
    → lex_lt (xs ++ us) (ys ++ vs) ≡ (if bytes_eq xs ys then lex_lt us vs else lex_lt xs ys)
lex_lt-append [] [] us vs h = refl
lex_lt-append [] (y ∷ ys) us vs h = absurd (omega arith)
lex_lt-append (x ∷ xs) [] us vs h = absurd (omega arith)
lex_lt-append (x ∷ xs) (y ∷ ys) us vs h = ground (arith, lex_lt-append xs ys us vs (omega arith))

length-digits : (k n : ℕ) → length (digits k n) ≡ k
unfolding digits
length-digits zero n = refl
length-digits (suc k) n =
    omega
      (arith, length-append (digits k (n / 10)) ((b'0' + n % 10) ∷ []), length-digits k (n / 10))

lex_lt_irrefl : (xs : Bytes) → lex_lt xs xs ≡ false
lex_lt_irrefl [] = refl
lex_lt_irrefl (x ∷ xs) = ground (arith, lex_lt_irrefl xs)

tenth_fits : (k n : ℕ) → n < 10 ^ suc k → n / 10 < 10 ^ k
tenth_fits k n h = let e : 10 ^ suc k ≡ 10 ^ k * 10 = pow-suc 10 k in omega (arith, e)

-- Fixed-width decimals compare as their numbers.
digits-lt : (k m n : ℕ) → n < 10 ^ k → m < n → lex_lt (digits k m) (digits k n) ≡ true
unfolding digits
digits-lt zero m n fits h = absurd (omega arith)
digits-lt (suc k) m n fits h =
    rw
      (lex_lt-append (digits k (m / 10)) (digits k (n / 10)) _ _
        (length-digits k (m / 10) ∙ sym (length-digits k (n / 10))))
      (elim (dec_lt (m / 10) (n / 10)) [
        | yes p ↦ ground (
          arith,
          digits-lt k (m / 10) (n / 10) (tenth_fits k n fits) p,
          lex_lt_irrefl (digits k (m / 10)),
          bytes_eq_iff (digits k (m / 10)) (digits k (n / 10)),
        )
        | no p ↦
            let e : m / 10 ≡ n / 10 = omega arith in
            let last : m % 10 < n % 10 = omega arith in
            ground (arith, ap (digits k) e, bytes_eq_iff (digits k (m / 10)) (digits k (n / 10)))
      ])

names_lt : (m n : ℕ) → n < 2 ^ 64 → m < n → lex_lt (name_of m) (name_of n) ≡ true
unfolding name_of
names_lt m n fits h =
    rw
      (lex_lt-append (digits 20 m) (digits 20 n) _ _
        (length-digits 20 m ∙ sym (length-digits 20 n)))
      (ground (
        arith,
        digits-lt 20 m n (omega arith) h,
        lex_lt_irrefl (digits 20 m),
        bytes_eq_iff (digits 20 m) (digits 20 n),
      ))

lex_lt_asym : (xs ys : Bytes) → lex_lt xs ys ≡ true → lex_lt ys xs ≡ false
lex_lt_asym [] [] h = refl
lex_lt_asym [] (y ∷ ys) h = refl
lex_lt_asym (x ∷ xs) [] h = cc
lex_lt_asym (x ∷ xs) (y ∷ ys) h = ground (arith, lex_lt_asym xs ys)

-- The file names of two sequence numbers are in lexical order exactly as the numbers are, for every
-- pair of 64-bit numbers.
pub name_of-order :
    (m n : ℕ) → m < 2 ^ 64 → n < 2 ^ 64 → (lex_lt (name_of m) (name_of n) ≡ true) ↔ (m < n)
unfolding name_of
name_of-order m n hm hn = (
  λ e. elim (dec_lt m n) [
    | yes p ↦ p
    | no p ↦ elim (ℕ_discrete m n) [
      | yes q ↦ ground (arith, ap name_of q, lex_lt_irrefl (name_of n))
      | no q ↦ ground (arith, lex_lt_asym (name_of m) (name_of n), names_lt n m hm (omega arith))
    ]
  ],
  λ p. names_lt m n hn p,
)

-- A batch that is added gets a number above every earlier one, until the 64-bit numbers run out.
pub next_seq-lt :
    (now last_seq : ℕ)
    → last_seq + 1 < 2 ^ 64
    → (last_seq < next_seq now last_seq) × (next_seq now last_seq < 2 ^ 64)
unfolding next_seq
next_seq-lt now last_seq h = ground arith

digits_apart :
    (k n : ℕ) (rest : Bytes) → starts_with (codes ".tmp-") (digits (suc k) n ++ rest) ≡ false
unfolding digits
digits_apart zero n rest = ground arith
digits_apart (suc k) n rest =
    rw (append_assoc (digits (suc k) (n / 10)) ((b'0' + n % 10) ∷ []) rest)
      (digits_apart k (n / 10) ((b'0' + n % 10) ∷ rest))

-- The name of a batch is never that of a temporary file.
pub name_of-ne-tmp :
    (n : ℕ) (tmp : Bytes) → starts_with (codes ".tmp-") tmp ≡ true → tmp ≢ name_of n
unfolding name_of
name_of-ne-tmp n tmp h e =
    cc (digits_apart 19 n (codes ".json"), ap (starts_with (codes ".tmp-")) e)

pub name_of-ne : (m n : ℕ) → m < n → n < 2 ^ 64 → name_of m ≢ name_of n
name_of-ne m n h fits e =
    cc (names_lt m n fits h, ap (lex_lt (name_of m)) e, lex_lt_irrefl (name_of m))
