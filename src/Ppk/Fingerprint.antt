-- ===== src/Ppk/Fingerprint.antt =====
-- scripts/ppk_qa_worker.py: the bytes that `fingerprint` hashes. The digest is a parameter.
use slope_monitoring.Common.{ℕ, zero, suc, ◌/◌, ◌%◌, String, List, [], ◌∷◌, ◌++◌, length}
use slope_monitoring.Common.Text.{codes}

-- n.to_bytes(width, "big")
unfoldable pub big_bytes : ℕ → ℕ → List ℕ
big_bytes zero n = []
big_bytes (suc width) n = big_bytes width (n / 256) ++ (n % 256) ∷ []

-- the loop over the parts: the length of each in eight bytes, and the part
unfoldable pub framed : List (List ℕ) → List ℕ
framed [] = []
framed (part ∷ parts) = big_bytes 8 (length part) ++ (part ++ framed parts)

-- b"MAGRIS_PPK_QA_WORKER_V1\x00" and the framed parts
unfoldable pub hashed : List (List ℕ) → List ℕ
hashed parts = codes "MAGRIS_PPK_QA_WORKER_V1" ++ 0 ∷ framed parts

module _ (sha256 : List ℕ → String) where
  -- `reference` and `scope` are the encoded texts repr(reference) and scope
  unfoldable pub fingerprint : List ℕ → List ℕ → List ℕ → List ℕ → List ℕ → List ℕ → String
  fingerprint base rover nav config reference scope =
      sha256 (hashed (base ∷ rover ∷ nav ∷ config ∷ reference ∷ scope ∷ []))
