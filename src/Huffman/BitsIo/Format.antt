-- ===== src/Huffman/BitsIo/Format.antt =====
-- bits-io.c: the bytes of the packed format, and the bits that they hold. The laws are checked on
-- every byte.
use Prim.Native.Nat.{bit_and, bit_or}
use projects_in_c.Base.{
  ℕ, zero, suc, ◌*◌, ◌/◌, ◌%◌, ◌^◌, ◌<◌, ◌≤◌, ◌≡◌, ◌≢◌, refl, List, [], ◌∷◌, ◌++◌, Option, none,
  some, Bool, true, false, ◌&&◌, ◌||◌, ltb, leb, ◌==◌, if◌then◌else◌, arith, append_assoc,
}
use projects_in_c.Base.Bytes.{holds_below, holds_below_lem}
use projects_in_c.Huffman.BitsIo.{mask, shl, load_byte, no_bits_written, all_bits_read}

-- The lowest `n` bits of a number, the highest first.
abbrev pub to_bits : ℕ → ℕ → List ℕ
to_bits zero x = []
to_bits (suc n) x = x / 2 ^ n % 2 ∷ to_bits n x

-- What follows the first 0 in a list of bits.
abbrev pub after_zero : List ℕ → List ℕ
after_zero [] = []
after_zero (b ∷ bs) = if b == 0 then bs else after_zero bs

-- What stands in front of the last 1 in a list of bits.
abbrev pub before_last_one : List ℕ → Option (List ℕ)
before_last_one [] = none
before_last_one (b ∷ bs) = keep (before_last_one bs)
  where
    keep : Option (List ℕ) → Option (List ℕ)
    keep none = if b == 0 then none else some []
    keep (some r) = some (b ∷ r)

abbrev pub or_nil : Option (List ℕ) → List ℕ
or_nil none = []
or_nil (some r) = r

-- The bits that a byte of a packed file holds, and those that are left in a reader's buffer.
pub bits_of : ℕ → List ℕ
bits_of byte = after_zero (to_bits 8 byte)

pub bits_left : ℕ → List ℕ
bits_left byte = or_nil (before_last_one (to_bits 8 byte))

abbrev list_eq : List ℕ → List ℕ → Bool
list_eq [] [] = true
list_eq [] (_ ∷ _) = false
list_eq (_ ∷ _) [] = false
list_eq (x ∷ xs) (y ∷ ys) = x == y && list_eq xs ys

list_eq_sound : (xs ys : List ℕ) → list_eq xs ys ≡ true → xs ≡ ys
list_eq_sound [] [] h = refl
list_eq_sound [] (_ ∷ _) h = cc
list_eq_sound (_ ∷ _) [] h = cc
list_eq_sound (x ∷ xs) (y ∷ ys) h = ground (arith, list_eq_sound xs ys)

-- A buffer with room for a bit, and a buffer of a reader: never 0, and never 255 between calls.
abbrev pub HasRoom : ℕ → Type 0
HasRoom x = (128 ≤ x) × (x < 255)

abbrev pub IsLeft : ℕ → Type 0
IsLeft x = (0 < x) × (x < 255) × (x % 2 ≡ 0)

write_test : ℕ → ℕ → Bool
write_test bit x =
    let y : ℕ = bit_or (x * 2) bit % 256 in
    ltb x 128 || leb 255 x || (list_eq (bits_of y) (bits_of x ++ bit ∷ []) && ltb y 254)

write_table : (holds_below 256 (write_test 0) ≡ true) × (holds_below 256 (write_test 1) ≡ true)
unfolding holds_below write_test bits_of
write_table = (refl, refl)

write_test_lem :
    (bit x : ℕ)
    → HasRoom x
    → write_test bit x ≡ true
    → (bits_of (bit_or (x * 2) bit % 256) ≡ bits_of x ++ bit ∷ [])
      × (bit_or (x * 2) bit % 256 < 254)
unfolding write_test
write_test_lem bit x h t =
    ground (arith, list_eq_sound (bits_of (bit_or (x * 2) bit % 256)) (bits_of x ++ bit ∷ []))

-- Writing a bit into a buffer with room appends it to the bits that the buffer holds.
pub bits_of-write :
    (bit x : ℕ)
    → HasRoom x
    → bit < 2
    → (bits_of (bit_or (x * 2) bit % 256) ≡ bits_of x ++ bit ∷ [])
      × (bit_or (x * 2) bit % 256 < 254)
bits_of-write bit x h small = write_test_lem bit x h (tested bit small)
  where
    tested : (bit : ℕ) → bit < 2 → write_test bit x ≡ true
    tested zero small = holds_below_lem 256 (write_test 0) x write_table.0 (omega arith)
    tested (suc zero) small = holds_below_lem 256 (write_test 1) x write_table.1 (omega arith)
    tested (suc (suc n)) small = absurd (omega arith)

load_test : ℕ → Bool
load_test x =
    let y : ℕ = load_byte x in
    list_eq (bits_of x) (bit_and y mask / 2 ^ 7 ∷ bits_left (shl y))
    && ltb 0 (shl y)
    && ltb (shl y) 255
    && shl y % 2 == 0

load_table : holds_below 254 load_test ≡ true
unfolding holds_below load_test bits_of bits_left load_byte
load_table = refl

shift_test : ℕ → Bool
shift_test x =
    x == 0
    || x % 2 == 1
    || x == all_bits_read
    || (list_eq (bits_left x) (bit_and x mask / 2 ^ 7 ∷ bits_left (shl x))
        && ltb 0 (shl x)
        && ltb (shl x) 255
        && shl x % 2 == 0)

shift_table : holds_below 255 shift_test ≡ true
unfolding holds_below shift_test bits_left
shift_table = refl

-- The byte `x` has been loaded: its first bit comes next, and the others are left.
pub bits_of-load :
    (x : ℕ)
    → x < 254
    → (bits_of x ≡ bit_and (load_byte x) mask / 2 ^ 7 ∷ bits_left (shl (load_byte x)))
      × IsLeft (shl (load_byte x))
unfolding load_test
bits_of-load x h = ground (
  arith,
  holds_below_lem 254 load_test x load_table h,
  list_eq_sound (bits_of x) (bit_and (load_byte x) mask / 2 ^ 7 ∷ bits_left (shl (load_byte x))),
)

-- A bit has been taken from the buffer `x`.
pub bits_left-shift :
    (x : ℕ)
    → IsLeft x
    → x ≢ all_bits_read
    → (bits_left x ≡ bit_and x mask / 2 ^ 7 ∷ bits_left (shl x)) × IsLeft (shl x)
unfolding shift_test
bits_left-shift x h ne = ground (
  arith,
  holds_below_lem 255 shift_test x shift_table (omega arith),
  list_eq_sound (bits_left x) (bit_and x mask / 2 ^ 7 ∷ bits_left (shl x)),
)

pub bits_of-none : bits_of no_bits_written ≡ []
unfolding bits_of
bits_of-none = refl

pub bits_left-none : bits_left all_bits_read ≡ []
unfolding bits_left
bits_left-none = refl

-- The bits in the bytes of a packed file, and what holds of each byte of one: it is none of the
-- bytes 254, which holds no bit, and 255.
abbrev pub unpack : List ℕ → List ℕ
unpack [] = []
unpack (x ∷ xs) = bits_of x ++ unpack xs

abbrev pub IsPacked : List ℕ → Type 0
IsPacked [] = Unit
IsPacked (x ∷ xs) = (x < 254) × IsPacked xs

pub unpack-append : (xs ys : List ℕ) → unpack (xs ++ ys) ≡ unpack xs ++ unpack ys
unpack-append [] ys = refl
unpack-append (x ∷ xs) ys = rw (unpack-append xs ys, append_assoc)

pub IsPacked-snoc : (xs : List ℕ) (x : ℕ) → IsPacked xs → x < 254 → IsPacked (xs ++ x ∷ [])
IsPacked-snoc [] x h e = (e, tt)
IsPacked-snoc (y ∷ ys) x h e = (h.0, IsPacked-snoc ys x h.1 e)
