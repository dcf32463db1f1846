-- ===== src/FlowToolsIo.antt =====
-- src/io-ft.c: the handler of traces in the format of flow-tools. Where the library puts a member of
-- a record, and how it takes a router's clock to a time, are parameters.
pub mod Fields
use Prim.Native.String.{String}
use nfql.Prelude.{ℕ, ◌+◌, ◌*◌, ◌%◌, List, [], ◌∷◌, map}
use nfql.Word.{Buffer, u64_mod, w32, load}
use nfql.Rule.{find_name}
use nfql.Io.{IoHandler}

-- The members of `struct fts3rec_offsets` that have a name in a query.
pub data Member : Type 0 where
  unix_secs unix_nsecs sys_up_time exaddr srcaddr dstaddr nexthop input output : Member
  d_flows d_pkts d_octets first last srcport dstport prot tos tcp_flags pad : Member
  engine_type engine_id src_mask dst_mask src_as dst_as in_encaps out_encaps : Member
  peer_nexthop router_sc src_tag dst_tag extra_pkts marked_tos : Member

-- The names, of IPFIX where there is one, in the order in which they are compared.
abbrev pub field_names : List (String × Member)
field_names =
    ("unix_secs", unix_secs)
    ∷ ("unix_nsecs", unix_nsecs)
    ∷ ("sysUpTime", sys_up_time)
    ∷ ("exaddr", exaddr)
    ∷ ("sourceIPv4Address", srcaddr)
    ∷ ("destinationIPv4Address", dstaddr)
    ∷ ("ipNextHopIPv4Address", nexthop)
    ∷ ("input", input)
    ∷ ("output", output)
    ∷ ("deltaFlowCount", d_flows)
    ∷ ("packetDeltaCount", d_pkts)
    ∷ ("octetDeltaCount", d_octets)
    ∷ ("flowStartSysUpTime", first)
    ∷ ("flowEndSysUpTime", last)
    ∷ ("sourceTransportPort", srcport)
    ∷ ("destinationTransportPort", dstport)
    ∷ ("protocolIdentifier", prot)
    ∷ ("ipClassOfService", tos)
    ∷ ("tcpControlBits", tcp_flags)
    ∷ ("pad", pad)
    ∷ ("engine_type", engine_type)
    ∷ ("engine_id", engine_id)
    ∷ ("src_mask", src_mask)
    ∷ ("dst_mask", dst_mask)
    ∷ ("bgpSourceAsNumber", src_as)
    ∷ ("bgpDestinationAsNumber", dst_as)
    ∷ ("in_encaps", in_encaps)
    ∷ ("out_encaps", out_encaps)
    ∷ ("peer_nexthop", peer_nexthop)
    ∷ ("router_sc", router_sc)
    ∷ ("src_tag", src_tag)
    ∷ ("dst_tag", dst_tag)
    ∷ ("extra_pkts", extra_pkts)
    ∷ ("marked_tos", marked_tos)
    ∷ []

-- What flow-tools says of a trace: the offsets of the members, and the size of a record; and its
-- function `ftltime`, which answers seconds and milliseconds.
pub record FlowTools : Type 0 where
  pub offsets : Member → ℕ
  pub rec_size : ℕ
  pub ftltime : ℕ → ℕ → ℕ → ℕ → ℕ × ℕ

-- A name that is not compared gives -1, as a size_t.
unfoldable pub io_ft_get_offset : (Member → ℕ) → String → ℕ
unfolding find_name
io_ft_get_offset offsets name =
    find_name name (map (λ field. (field.0, offsets (field.1))) field_names)

module _ (flow_tools : FlowTools) where
  -- The time that a member gives in milliseconds of the router's clock.
  unfoldable pub time_of : Member → Buffer → ℕ
  time_of member rec =
      let uptime = load w32 rec (flow_tools.offsets sys_up_time) in
      let secs = load w32 rec (flow_tools.offsets unix_secs) in
      let nsecs = load w32 rec (flow_tools.offsets unix_nsecs) in
      let time = flow_tools.ftltime uptime secs nsecs (load w32 rec (flow_tools.offsets member)) in
      (1000 * time.0 + time.1) % u64_mod

  unfoldable pub io_ft_record_get_StartTS : Buffer → ℕ
  unfolding time_of
  io_ft_record_get_StartTS rec = time_of first rec

  unfoldable pub io_ft_record_get_EndTS : Buffer → ℕ
  unfolding time_of
  io_ft_record_get_EndTS rec = time_of last rec

  abbrev pub ft_io_handler : IoHandler
  ft_io_handler = record {
    io_read_get_field_offset = io_ft_get_offset flow_tools.offsets;
    io_read_get_record_size = flow_tools.rec_size;
    io_record_get_StartTS = io_ft_record_get_StartTS;
    io_record_get_EndTS = io_ft_record_get_EndTS;
  }
