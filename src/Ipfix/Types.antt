-- ===== src/Ipfix/Types.antt =====
-- src/ipfix-constants.h, `enum ipfix_ie_type`, and `ipfix_ie_type_sizeof` of src/io-ipfix.c.
use nfql.Prelude.{ℕ, ◌-◌, ◌^◌}

pub data IeType : Type 0 where
  unknown string unsigned64 unsigned8 datetimemicroseconds octetarray float64 datetimeseconds
        unsigned16 unsigned32 datetimemilliseconds boolean ipv6address ipv4address macaddress
        subtemplatemultilist datetimenanoseconds basiclist subtemplatelist :
      IeType

-- A type without a size has -1, which the caller keeps as a size_t.
abbrev pub no_size : ℕ
no_size = 2 ^ 64 - 1

unfoldable pub ipfix_ie_type_sizeof : IeType → ℕ
ipfix_ie_type_sizeof unknown = no_size
ipfix_ie_type_sizeof string = no_size
ipfix_ie_type_sizeof unsigned64 = 8
ipfix_ie_type_sizeof unsigned8 = 1
ipfix_ie_type_sizeof datetimemicroseconds = 8
ipfix_ie_type_sizeof octetarray = no_size
ipfix_ie_type_sizeof float64 = 8
ipfix_ie_type_sizeof datetimeseconds = 4
ipfix_ie_type_sizeof unsigned16 = 2
ipfix_ie_type_sizeof unsigned32 = 4
ipfix_ie_type_sizeof datetimemilliseconds = 8
ipfix_ie_type_sizeof boolean = no_size
ipfix_ie_type_sizeof ipv6address = 16
ipfix_ie_type_sizeof ipv4address = 4
ipfix_ie_type_sizeof macaddress = 6
ipfix_ie_type_sizeof subtemplatemultilist = no_size
ipfix_ie_type_sizeof datetimenanoseconds = 8
ipfix_ie_type_sizeof basiclist = no_size
ipfix_ie_type_sizeof subtemplatelist = no_size
