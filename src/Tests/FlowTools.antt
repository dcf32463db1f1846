-- ===== src/Tests/FlowTools.antt =====
-- The theorem on the fields of a flow-tools trace, at the layout of a NetFlow v5 record.
use nfql.Prelude.{ℕ, ◌≡◌, ◌≢◌, ◌⊎◌}
use nfql.Rule.{no_enum}
use nfql.Io.{IoHandler}
use nfql.FlowToolsIo.{
  Member, unix_secs, unix_nsecs, sys_up_time, exaddr, srcaddr, dstaddr, nexthop, input, output,
  d_pkts, d_octets, first, last, srcport, dstport, prot, tos, tcp_flags, pad, engine_type,
  engine_id, src_mask, dst_mask, src_as, dst_as, FlowTools, ft_io_handler,
}
use nfql.FlowToolsIo.Fields.{member_name, io_ft_get_offset_lem}

-- A member that the format lacks is put at the last offset of 16 bits.
abbrev offset_v5 : Member → ℕ
offset_v5 unix_secs = 0
offset_v5 unix_nsecs = 4
offset_v5 sys_up_time = 8
offset_v5 exaddr = 12
offset_v5 srcaddr = 16
offset_v5 dstaddr = 20
offset_v5 nexthop = 24
offset_v5 input = 28
offset_v5 output = 30
offset_v5 d_pkts = 32
offset_v5 d_octets = 36
offset_v5 first = 40
offset_v5 last = 44
offset_v5 srcport = 48
offset_v5 dstport = 50
offset_v5 prot = 52
offset_v5 tos = 53
offset_v5 tcp_flags = 54
offset_v5 pad = 55
offset_v5 engine_type = 56
offset_v5 engine_id = 57
offset_v5 src_mask = 58
offset_v5 dst_mask = 59
offset_v5 src_as = 60
offset_v5 dst_as = 62
offset_v5 _ = 65535

abbrev netflow_v5 : FlowTools
netflow_v5 = record {
  offsets = offset_v5;
  rec_size = 64;
  ftltime = λ uptime secs nsecs time. (secs, time);
}

io_ft_get_offset_lem_example :
    let answer =
      IoHandler.io_read_get_field_offset (ft_io_handler netflow_v5) "sourceTransportPort" in
    ((m : Member) × ("sourceTransportPort" ≡ member_name m) × (answer ≡ offset_v5 m))
    ⊎ (((m : Member) → "sourceTransportPort" ≢ member_name m) × (answer ≡ no_enum))
io_ft_get_offset_lem_example = io_ft_get_offset_lem netflow_v5 "sourceTransportPort"
