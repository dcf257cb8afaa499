-- ===== src/Ppk/Bytes.antt =====
-- Python's bytes as lists of numbers: slices, little-endian integers and the UBX checksum, a loop that
-- scripts/ppk_qa_worker.py and ml/pipeline/preprocessing/gnss_rawx_time.py both write out.
use slope_monitoring.Common.{
  ℕ, ◌+◌, ◌-◌, ◌*◌, ◌%◌, List, [], ◌∷◌, length, take, drop, get_elem?, some_or,
}

-- b[i:j]
unfoldable pub slice : ℕ → ℕ → List ℕ → List ℕ
slice i j b = take (j - i) (drop i b)

-- b[-n:]
unfoldable pub last_bytes : ℕ → List ℕ → List ℕ
last_bytes n b = drop (length b - n) b

-- b[i:-n]
unfoldable pub inner : ℕ → ℕ → List ℕ → List ℕ
inner i n b = drop i (take (length b - n) b)

-- b[i], where i is below the length
unfoldable pub byte_at : ℕ → List ℕ → ℕ
byte_at i b = some_or 0 (get_elem? b i)

-- int.from_bytes(b, "little")
unfoldable pub little : List ℕ → ℕ
little [] = 0
little (x ∷ xs) = x + 256 * little xs

-- for byte in ...: a = (a + byte) & 255; b = (b + a) & 255
unfoldable pub checksum_from : ℕ → ℕ → List ℕ → List ℕ
checksum_from a b [] = a ∷ b ∷ []
checksum_from a b (x ∷ xs) = checksum_from ((a + x) % 256) ((b + (a + x) % 256) % 256) xs

-- bytes((a, b)) after the loop from zero
unfoldable pub checksum : List ℕ → List ℕ
unfolding checksum_from
checksum bs = checksum_from 0 0 bs
