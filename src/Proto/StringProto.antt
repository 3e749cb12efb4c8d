-- ===== src/Proto/StringProto.antt =====
-- library/src/proto/string_proto.cpp and its header: a protocol of strings, of which nothing is
-- implemented that sends or receives.
use networkio.Base.{ℕ, Bool, true, false, List, [], Option, none, some, if◌then◌else◌}
use networkio.Interfaces.{ClientOps}

pub record StringProto (S : Type 0) : Type 0 where
  pub m_client : Option S
  pub m_out_string : List ℕ

module _ {S : Type 0} (ops : ClientOps S) where
  abbrev pub has_connection : Option S → Bool
  has_connection none = false
  has_connection (some s) = ops.is_connected s

  unfoldable pub read_string : StringProto S → List ℕ
  read_string p = if has_connection p.m_client then [] else []

  unfoldable pub write_string : StringProto S → List ℕ → Bool × StringProto S
  write_string p s = if has_connection p.m_client then (true, p) else (false, p)

  unfoldable pub process : StringProto S → Bool × StringProto S
  process p = (true, p)
