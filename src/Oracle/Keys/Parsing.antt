-- ===== src/Oracle/Keys/Parsing.antt =====
-- A feed key is read back as the validator and the pair that it was made of.
use vertix.Base.{◌∷◌, ◌++◌, length}
use vertix.Base.Bytes.{Bytes}
use vertix.Sdk.{Sdk}

-- The bytes of a feed key.
abbrev pub feed_bytes : Bytes → Bytes → Bytes
feed_bytes val pair = 1 ∷ length val ∷ val ++ b'/' ∷ pair
