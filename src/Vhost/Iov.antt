-- ===== src/Vhost/Iov.antt =====
-- src/vhost.c: copies to and from scatter-gather lists. The memory of a list is given by the bytes of
-- its elements.
pub mod Copies
use usfstl.Base.{
  ℕ, ◌+◌, ◌-◌, Bool, List, [], ◌∷◌, ◌++◌, length, take, drop, ltb, ◌==◌, if◌then◌else◌,
}

abbrev pub min : ℕ → ℕ → ℕ
min a b = if ltb a b then a else b

-- The size of all elements.
unfoldable pub iov_len : List (List ℕ) → ℕ
iov_len [] = 0
iov_len (sg ∷ sgs) = length sg + iov_len sgs

-- The elements afterwards, and the number of bytes copied.
unfoldable pub iov_fill : List (List ℕ) → List ℕ → List (List ℕ) × ℕ
iov_fill [] buf = ([], 0)
iov_fill (sg ∷ sgs) buf =
    let cpy = min (length buf) (length sg) in
    let rest = iov_fill sgs (drop cpy buf) in
    if length buf == 0
    then (sg ∷ sgs, 0)
    else ((take cpy buf ++ drop cpy sg) ∷ rest.0, cpy + rest.1)

-- The bytes read into a buffer of `buflen` bytes. Their number is the result.
unfoldable pub iov_read : ℕ → List (List ℕ) → List ℕ
iov_read buflen [] = []
iov_read buflen (sg ∷ sgs) =
    let cpy = min buflen (length sg) in
    let rest = iov_read (buflen - cpy) sgs in if buflen == 0 then [] else take cpy sg ++ rest
