-- ===== src/Rpc/Wire.antt =====
-- include/usfstl/rpc.h and src/internal.h: the words of a message, in the byte order of the program
-- that writes them.
use usfstl.Base.{
  ℕ, ◌+◌, ◌*◌, ◌/◌, ◌%◌, ◌^◌, ◌<◌, ◌≡◌, refl, arith, Bool, true, false, ◌&&◌, not, List, [], ◌∷◌,
  ◌++◌, length, take, drop, leb, ◌==◌, if◌then◌else◌, length-append, take_exact, drop_exact,
  Bool-cases, inl, inr,
}
use mathlib.Core.List.{append_assoc, append-nil}

abbrev pub request_tag : ℕ
request_tag = 1970483774  -- 0x7573323e

abbrev pub response_tag : ℕ
response_tag = 1970483772  -- 0x7573323c

-- __swap32
unfoldable pub swap32 : ℕ → ℕ
swap32 v = v / 2 ^ 24 % 256 + v / 2 ^ 16 % 256 * 2 ^ 8 + v / 2 ^ 8 % 256 * 2 ^ 16 + v % 256 * 2 ^ 24

-- A uint32_t in memory, and the one that four bytes are.
unfoldable pub put32 : Bool → ℕ → List ℕ
put32 true v = v / 2 ^ 24 % 256 ∷ v / 2 ^ 16 % 256 ∷ v / 2 ^ 8 % 256 ∷ v % 256 ∷ []
put32 false v = v % 256 ∷ v / 2 ^ 8 % 256 ∷ v / 2 ^ 16 % 256 ∷ v / 2 ^ 24 % 256 ∷ []

unfoldable pub get32 : Bool → List ℕ → ℕ
get32 true (a ∷ b ∷ c ∷ d ∷ bytes) = a * 2 ^ 24 + b * 2 ^ 16 + c * 2 ^ 8 + d
get32 false (a ∷ b ∷ c ∷ d ∷ bytes) = d * 2 ^ 24 + c * 2 ^ 16 + b * 2 ^ 8 + a
get32 big bytes = 0

-- USFSTL_VAR_DATA_SIZE in a size, and a size without it.
abbrev pub var_data_size : ℕ
var_data_size = 2 ^ 31

abbrev pub has_var : ℕ → Bool
has_var size = leb var_data_size size

abbrev pub plain_size : ℕ → ℕ
plain_size size = size % var_data_size

abbrev pub or_var : ℕ → ℕ
or_var size = if has_var size then size else size + var_data_size

-- struct usfstl_rpc_request; the name has 128 bytes.
pub record Request : Type 0 where
  pub name : List ℕ
  pub retsize : ℕ  -- uint32_t
  pub argsize : ℕ  -- uint32_t

abbrev pub header_size : ℕ
header_size = 136

abbrev pub same_bytes : List ℕ → List ℕ → Bool
same_bytes [] [] = true
same_bytes (x ∷ xs) (y ∷ ys) = x == y && same_bytes xs ys
same_bytes _ _ = false

abbrev pub put_header : Bool → Request → List ℕ
put_header big hdr = hdr.name ++ (put32 big hdr.retsize ++ put32 big hdr.argsize)

-- A whole request and a whole response, as a program of the byte order `big` writes them.
abbrev pub request_message : Bool → Request → List ℕ → List ℕ → List ℕ
request_message big hdr extra arg = put32 big request_tag ++ (put_header big hdr ++ (extra ++ arg))

abbrev pub response_message : Bool → ℕ → List ℕ → List ℕ
response_message big status ret = put32 big response_tag ++ (put32 big status ++ ret)

-- The header as it is read, its sizes swapped if the tag was.
unfoldable pub get_header : Bool → Bool → List ℕ → Request
get_header big swap bytes =
    let retsize = get32 big (drop 128 bytes) in
    let argsize = get32 big (drop 132 bytes) in
    record {
      name = take 128 bytes;
      retsize = if swap then swap32 retsize else retsize;
      argsize = if swap then swap32 argsize else argsize;
    }

-- Whether two programs have different byte orders.
abbrev pub differ : Bool → Bool → Bool
differ true big = not big
differ false big = big

abbrev pub IsU32 : ℕ → Type 0
IsU32 v = v < 2 ^ 32

pub swap32-swap32 : (v : ℕ) → IsU32 v → swap32 (swap32 v) ≡ v
unfolding swap32
swap32-swap32 v h = omega arith

-- A word that is written in one byte order is read in the other as the swapped word.
pub get32-put32 :
    (big big' : Bool) (v : ℕ) (rest : List ℕ)
    → IsU32 v
    → get32 big (put32 big' v ++ rest) ≡ (if differ big big' then swap32 v else v)
unfolding get32 put32 swap32
get32-put32 true true v rest h = omega arith
get32-put32 true false v rest h = omega arith
get32-put32 false true v rest h = omega arith
get32-put32 false false v rest h = omega arith

pub length-put32 : (big : Bool) (v : ℕ) → length (put32 big v) ≡ 4
unfolding put32
length-put32 true v = refl
length-put32 false v = refl

pub same_bytes_self : (xs : List ℕ) → same_bytes xs xs ≡ true
same_bytes_self [] = refl
same_bytes_self (x ∷ xs) = ground (arith, same_bytes_self xs)

pub record IsHeader (hdr : Request) : Type 0 where
  pub name : length hdr.name ≡ 128
  pub retsize : IsU32 hdr.retsize
  pub argsize : IsU32 hdr.argsize

drop_header :
    (big : Bool) (hdr : Request)
    → length hdr.name ≡ 128
    → drop 132 (put_header big hdr) ≡ put32 big hdr.argsize
drop_header big hdr h =
    rw (← append_assoc hdr.name (put32 big hdr.retsize) (put32 big hdr.argsize)) (
      drop_exact 132 (hdr.name ++ put32 big hdr.retsize) (put32 big hdr.argsize) (
        omega
          (arith, length-append hdr.name (put32 big hdr.retsize), length-put32 big hdr.retsize)))

-- The word as it is meant.
pub reread :
    (big big' : Bool) (v : ℕ) (rest : List ℕ)
    → IsU32 v
    → (if differ big big'
        then swap32 (get32 big (put32 big' v ++ rest))
        else get32 big (put32 big' v ++ rest))
      ≡ v
reread big big' v rest h = elim (Bool-cases (differ big big')) [
  | inl e ↦ rw (get32-put32 big big' v rest h, e) (swap32-swap32 v h)
  | inr e ↦ rw (get32-put32 big big' v rest h, e) refl
]

-- A header that is written in one byte order and read in another is the header again, its sizes
-- being swapped exactly if the byte orders differ.
pub get_header-put_header :
    (big big' : Bool) (hdr : Request)
    → IsHeader hdr
    → get_header big (differ big big') (put_header big' hdr) ≡ hdr
unfolding get_header
get_header-put_header big big' hdr h =
    let sizes = put32 big' hdr.retsize ++ put32 big' hdr.argsize in
    let all = put_header big' hdr in
    let ret : (if differ big big'
          then swap32 (get32 big (drop 128 all))
          else get32 big (drop 128 all))
        ≡ hdr.retsize =
      rw (drop_exact 128 hdr.name sizes h.name) (reread big big' hdr.retsize _ h.retsize) in
    let arg : (if differ big big'
          then swap32 (get32 big (drop 132 all))
          else get32 big (drop 132 all))
        ≡ hdr.argsize =
      rw (drop_header big' hdr h.name, ← append-nil (put32 big' hdr.argsize))
        (reread big big' hdr.argsize [] h.argsize) in
    λ i. record { name = take_exact 128 hdr.name sizes h.name i; retsize = ret i; argsize = arg i }
