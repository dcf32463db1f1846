-- ===== src/Tests/Readers.antt =====
-- The theorem on the reader of an IPFIX trace, for a query that adds a field to the template.
use Prim.Native.String.{String}
use nfql.Prelude.{List, [], ◌∷◌, inl, inr, refl, arith}
use nfql.Ipfix.Types.{ipfix_ie_type_sizeof}
use nfql.Ipfix.{get_ipfix_type}
use nfql.IpfixIo.Fields.{Readable, io_ipfix_read_init_lem}

abbrev query_fields : List String
query_fields = "sourceIPv4Address" ∷ "vlanId" ∷ []

io_ipfix_read_init_lem_example : Readable query_fields [] (1 ∷ 2 ∷ [])
unfolding get_ipfix_type ipfix_ie_type_sizeof
io_ipfix_read_init_lem_example =
    io_ipfix_read_init_lem query_fields [] (1 ∷ 2 ∷ []) (omega arith)
      (inr (inr (inl refl)), (inr (inl refl), tt))
