-- ===== src/SizedArray.antt =====
-- src/containers/SizedArray.h: a fixed array of `nm` bytes with the number of those that count.
use shovel_server.Base.{
  ℕ, ◌≤◌, ◌≡◌, ◌∙◌, inl, inr, List, arith, ltb, if◌then◌else◌, Bool-cases, length, take,
  take-length, memcpy, take-memcpy,
}

pub record SizedArray : Type 0 where
  pub elements : List ℕ
  pub data_size : ℕ

unfoldable pub resize : ℕ → SizedArray → ℕ → SizedArray
resize nm a size = record a { data_size = if ltb size nm then size else nm }

unfoldable pub clear : SizedArray → SizedArray
clear a = record a { data_size = 0 }

-- The bytes that count.
abbrev pub contents : SizedArray → List ℕ
contents a = take a.data_size a.elements

-- NETSOCKET_ARRAY_SIZE, LOCALSOCKET_ARRAY_SIZE and connection_worker_arr_size.
abbrev pub array_size : ℕ
array_size = 65535

-- Copying bytes to the front of the array and setting its size leaves just these bytes to count.
pub contents-resize :
    (a : SizedArray) (bytes : List ℕ)
    → length bytes ≤ array_size
    → contents (
        resize array_size
          (record a { elements = memcpy a.elements bytes (length bytes) })
          (length bytes))
      ≡ bytes
unfolding resize
contents-resize a bytes h = elim (Bool-cases (ltb (length bytes) array_size)) [
  | inl e ↦ rw e (take-memcpy a.elements bytes (length bytes) (omega arith) ∙ take-length bytes)
  | inr e ↦
      let full : array_size ≡ length bytes = ground arith in
      rw (e, full) (take-memcpy a.elements bytes (length bytes) (omega arith) ∙ take-length bytes)
]
