-- ===== src/Types.antt =====
-- The constants of kason.h that other files share, as data types.

-- KaSON_TYPE_*.
pub data JsonType : Type 0 where
  unknown null true_literal false_literal string number array object : JsonType

-- KaSON_CONVERT_*, with the value that a success stores.
pub data Convert {ℓ} (A : Type ℓ) : Type ℓ where
  success : A → Convert A
  error range type_error : Convert A
