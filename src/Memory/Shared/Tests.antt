-- ===== src/Memory/Shared/Tests.antt =====
-- The theorems on `buffer` at a concrete one.
use networkio.Base.{ℕ, [], ◌∷◌, arith}
use networkio.Memory.Shared.{Buffer}
use networkio.Memory.Shared.Laws.{IsBuffer}

abbrev junk : ℕ → ℕ
junk i = 0xcd

-- Three bytes, shown from the second on.
abbrev storage : Buffer
storage = record { m_buffer = 1 ∷ 2 ∷ 3 ∷ []; m_begin = 1; m_offset = 1; m_size = 3; block = 7 }

storage-IsBuffer : IsBuffer storage
storage-IsBuffer = omega arith
