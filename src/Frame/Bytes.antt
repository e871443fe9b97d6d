-- ===== src/Frame/Bytes.antt =====
-- Fields of packets as bytes: what is written in front of the rest and read from there.
use udpfec.Base.{
  ℕ, zero, suc, ◌+◌, ◌*◌, ◌/◌, ◌^◌, ◌<◌, ◌≡◌, refl, sym, ap, ◌∙◌, List, [], ◌∷◌, ◌++◌, Bool, true,
  false, ◌&&◌, if◌then◌else◌, length, length-append, drop, arith, some, none,
}
use native.Mathlib.Nat.{pow-suc}
use udpfec.Base.Bits.{word}
use udpfec.Frame.Packet.{le_bytes, prepend, skip, size_if}

pub length-le_bytes : (n x : ℕ) → length (le_bytes n x) ≡ n
unfolding le_bytes
length-le_bytes zero x = refl
length-le_bytes (suc n) x = ap suc (length-le_bytes n (x / 256))

-- A number is read back from its bytes.
pub word-le_bytes : (n x : ℕ) (rest : List ℕ) → x < 256 ^ n → word n (le_bytes n x ++ rest) ≡ x
unfolding word le_bytes
word-le_bytes zero x rest h = omega (arith, h)
word-le_bytes (suc n) x rest h =
    let upper : x / 256 < 256 ^ n = omega (arith, pow-suc 256 n, h) in
    omega (arith, word-le_bytes n (x / 256) rest upper)

pub drop-append : (n : ℕ) (xs ys : List ℕ) → length xs ≡ n → drop n (xs ++ ys) ≡ ys
drop-append zero [] ys e = refl
drop-append zero (x ∷ xs) ys e = absurd (omega arith)
drop-append (suc n) [] ys e = absurd (omega arith)
drop-append (suc n) (x ∷ xs) ys e = drop-append n xs ys (omega arith)

-- Reading behind a field that is written in front of the rest leaves the rest.
pub skip-prepend :
    (b : Bool) (n : ℕ) (xs ys : List ℕ) → length xs ≡ n → skip b n (prepend b xs ys) ≡ ys
unfolding skip prepend
skip-prepend true n xs ys e = drop-append n xs ys e
skip-prepend false n xs ys e = refl

pub length-prepend :
    (b : Bool) (n : ℕ) (xs ys : List ℕ)
    → length xs ≡ n
    → length (prepend b xs ys) ≡ size_if b n + length ys
unfolding prepend
length-prepend true n xs ys e = length-append {0} xs ys ∙ ap (λ t. t + length ys) e
length-prepend false n xs ys e = omega arith

drop-nil : (n : ℕ) → drop {A = ℕ} n [] ≡ []
drop-nil zero = refl
drop-nil (suc n) = refl

pub drop-drop : (m n : ℕ) (xs : List ℕ) → drop (m + n) xs ≡ drop n (drop m xs)
drop-drop zero n xs = ap (λ t. drop t xs) (omega arith)
drop-drop (suc m) n [] = let e : suc m + n ≡ suc (m + n) = omega arith in rw e (sym (drop-nil n))
drop-drop (suc m) n (x ∷ xs) =
    let e : suc m + n ≡ suc (m + n) = omega arith in rw e (drop-drop m n xs)

-- The same by the number of bytes that the field takes.
pub drop-prepend :
    (b : Bool) (n m : ℕ) (xs ys : List ℕ)
    → length xs ≡ n
    → drop (size_if b n + m) (prepend b xs ys) ≡ drop m ys
unfolding prepend
drop-prepend true n m xs ys e = drop-drop n m (xs ++ ys) ∙ ap (drop m) (drop-append n xs ys e)
drop-prepend false n m xs ys e = ap (λ t. drop t ys) (omega arith)

-- A number that is read where its field is present.
pub read-prepend :
    (b : Bool) (n x : ℕ) (rest : List ℕ)
    → x < 256 ^ n
    → (if b then some (word n (prepend b (le_bytes n x) rest)) else none)
      ≡ (if b then some x else none)
unfolding prepend
read-prepend true n x rest h = ap some (word-le_bytes n x rest h)
read-prepend false n x rest h = refl

append-append : (xs ys zs : List ℕ) → (xs ++ ys) ++ zs ≡ xs ++ (ys ++ zs)
append-append [] ys zs = refl
append-append (x ∷ xs) ys zs = ap (λ t. x ∷ t) (append-append xs ys zs)

-- Two numbers of four bytes that are read as one of eight, where they are present.
pub read_pair-prepend :
    (b fits : Bool) (x y : ℕ) (rest : List ℕ)
    → x < 2 ^ 32
    → y < 2 ^ 32
    → (b ≡ true → fits ≡ true)
    → (b ≡ false → x * 2 ^ 32 + y ≡ 0)
    → (let bytes = prepend b (le_bytes 4 x ++ le_bytes 4 y) rest in
        if b && fits then word 4 bytes * 2 ^ 32 + word 4 (drop 4 bytes) else 0)
      ≡ x * 2 ^ 32 + y
unfolding prepend
read_pair-prepend true fits x y rest h k room nothing =
    let split = append-append (le_bytes 4 x) (le_bytes 4 y) rest in
    let first = ap (word 4) split ∙ word-le_bytes 4 x (le_bytes 4 y ++ rest) h in
    let behind =
      ap (drop 4) split
      ∙ drop-append 4 (le_bytes 4 x) (le_bytes 4 y ++ rest) (length-le_bytes 4 x) in
    let second = ap (word 4) behind ∙ word-le_bytes 4 y rest k in
    rw (room refl) (λ i. first i * 2 ^ 32 + second i)
read_pair-prepend false fits x y rest h k room nothing = sym (nothing refl)
