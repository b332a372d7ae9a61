-- ===== src/Config/Naming/Digest.antt =====
-- What the names need of the hash: a digest is 32 bytes.
use dev_box.Common.{ℕ, ◌≤◌, ◌≡◌, true, Text, length, length-take, all, all-take, arith}
use dev_box.Strings.Hex.{encode, length-encode, all-encode, is_hex, AreBytes}
use dev_box.Config.Naming.{short_hash}

pub record IsDigest (sha256 : Text → Text) : Type 0 where
  pub length_32 : (s : Text) → length (sha256 s) ≡ 32
  pub bytes : (s : Text) → AreBytes (sha256 s)

module _ (sha256 : Text → Text) (digest : IsDigest sha256) where
  pub length-short_hash : (s : Text) (n : ℕ) → n ≤ 64 → length (short_hash sha256 s n) ≡ n
  unfolding short_hash
  length-short_hash s n h =
      omega (arith, length-take n (encode (sha256 s)), length-encode (sha256 s), digest.length_32 s)

  pub all-short_hash : (s : Text) (n : ℕ) → all is_hex (short_hash sha256 s n) ≡ true
  unfolding short_hash
  all-short_hash s n =
      all-take is_hex n (encode (sha256 s)) (all-encode (sha256 s) (digest.bytes s))
