-- ===== src/FlowToolsIo/Fields.antt =====
-- The names of the members of a flow-tools record, and what src/io-ft.c answers for a name.
use Prim.Native.String.{String}
use nfql.Prelude.{◌≡◌, ◌≢◌, ◌⊎◌, inl, inr, List, [], ◌∷◌, All}
use nfql.Rule.{no_enum}
use nfql.Rule.Enum.{find_name-map}
use nfql.Io.{IoHandler}
use nfql.FlowToolsIo.{
  Member, unix_secs, unix_nsecs, sys_up_time, exaddr, srcaddr, dstaddr, nexthop, input, output,
  d_flows, d_pkts, d_octets, first, last, srcport, dstport, prot, tos, tcp_flags, pad, engine_type,
  engine_id, src_mask, dst_mask, src_as, dst_as, in_encaps, out_encaps, peer_nexthop, router_sc,
  src_tag, dst_tag, extra_pkts, marked_tos, FlowTools, io_ft_get_offset, ft_io_handler,
}

-- The name of a member in a query: that of the element of IPFIX with its meaning, and the member's
-- own where IPFIX has none.
abbrev pub member_name : Member → String
member_name unix_secs = "unix_secs"
member_name unix_nsecs = "unix_nsecs"
member_name sys_up_time = "sysUpTime"
member_name exaddr = "exaddr"
member_name srcaddr = "sourceIPv4Address"
member_name dstaddr = "destinationIPv4Address"
member_name nexthop = "ipNextHopIPv4Address"
member_name input = "input"
member_name output = "output"
member_name d_flows = "deltaFlowCount"
member_name d_pkts = "packetDeltaCount"
member_name d_octets = "octetDeltaCount"
member_name first = "flowStartSysUpTime"
member_name last = "flowEndSysUpTime"
member_name srcport = "sourceTransportPort"
member_name dstport = "destinationTransportPort"
member_name prot = "protocolIdentifier"
member_name tos = "ipClassOfService"
member_name tcp_flags = "tcpControlBits"
member_name pad = "pad"
member_name engine_type = "engine_type"
member_name engine_id = "engine_id"
member_name src_mask = "src_mask"
member_name dst_mask = "dst_mask"
member_name src_as = "bgpSourceAsNumber"
member_name dst_as = "bgpDestinationAsNumber"
member_name in_encaps = "in_encaps"
member_name out_encaps = "out_encaps"
member_name peer_nexthop = "peer_nexthop"
member_name router_sc = "router_sc"
member_name src_tag = "src_tag"
member_name dst_tag = "dst_tag"
member_name extra_pkts = "extra_pkts"
member_name marked_tos = "marked_tos"

abbrev members : List Member
members =
    unix_secs ∷ unix_nsecs ∷ sys_up_time ∷ exaddr ∷ srcaddr ∷ dstaddr ∷ nexthop ∷ input ∷ output
    ∷ d_flows ∷ d_pkts ∷ d_octets ∷ first ∷ last ∷ srcport ∷ dstport ∷ prot ∷ tos ∷ tcp_flags ∷ pad
    ∷ engine_type ∷ engine_id ∷ src_mask ∷ dst_mask ∷ src_as ∷ dst_as ∷ in_encaps ∷ out_encaps
    ∷ peer_nexthop ∷ router_sc ∷ src_tag ∷ dst_tag ∷ extra_pkts ∷ marked_tos ∷ []

every_member : (P : Member → Type 0) → All P members → (m : Member) → P m
every_member P h unix_secs = h.0
every_member P h m = search (h)

-- What a query may call a field of a trace of flow-tools: a name of a member gives its offset, and
-- a name of none gives -1.
pub io_ft_get_offset_lem :
    (flow_tools : FlowTools) (name : String)
    → let answer = IoHandler.io_read_get_field_offset (ft_io_handler flow_tools) name in
      ((m : Member) × (name ≡ member_name m) × (answer ≡ flow_tools.offsets m))
      ⊎ (((m : Member) → name ≢ member_name m) × (answer ≡ no_enum))
unfolding io_ft_get_offset
io_ft_get_offset_lem flow_tools name =
    elim (find_name-map member_name flow_tools.offsets name members) [
      | inl known ↦ inl known
      | inr (others, answer) ↦ inr (every_member (λ m. name ≢ member_name m) others, answer)
    ]
