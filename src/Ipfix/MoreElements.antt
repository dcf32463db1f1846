-- ===== src/Ipfix/MoreElements.antt =====
-- src/ipfix-constants.c, `get_ipfix_type`: the information elements in the order in which it
-- compares them, fifty to a list.
use Prim.Native.String.{String}
use nfql.Prelude.{List, [], ◌∷◌}
use nfql.Ipfix.Types.{
  IeType, basiclist, datetimemicroseconds, datetimemilliseconds, datetimenanoseconds,
  datetimeseconds, float64, ipv4address, ipv6address, macaddress, octetarray, string,
  subtemplatelist, unsigned16, unsigned32, unsigned64, unsigned8,
}

abbrev pub fifth_elements : List (String × IeType)
fifth_elements =
    ("flowEndSysUpTime", unsigned32)
    ∷ ("postNATSourceIPv4Address", ipv4address)
    ∷ ("informationElementRangeBegin", unsigned64)
    ∷ ("metroEvcType", unsigned8)
    ∷ ("bgpSourceAsNumber", unsigned32)
    ∷ ("samplingSize", unsigned32)
    ∷ ("wtpMacAddress", macaddress)
    ∷ ("layer2OctetDeltaCount", unsigned64)
    ∷ ("tcpControlBits", unsigned8)
    ∷ ("virtualStationUUID", octetarray)
    ∷ ("layer2SegmentId", unsigned64)
    ∷ ("initiatorOctets", unsigned64)
    ∷ ("ipv4IHL", unsigned8)
    ∷ ("destinationMacAddress", macaddress)
    ∷ ("flowStartMilliseconds", datetimemilliseconds)
    ∷ ("virtualStationInterfaceName", string)
    ∷ ("ipPrecedence", unsigned8)
    ∷ ("absoluteError", float64)
    ∷ ("templateId", unsigned16)
    ∷ ("selectorId", unsigned64)
    ∷ ("meteringProcessId", unsigned32)
    ∷ ("isMulticast", unsigned8)
    ∷ ("applicationId", octetarray)
    ∷ ("samplingTimeInterval", unsigned32)
    ∷ ("classificationEngineId", unsigned8)
    ∷ ("metroEvcId", string)
    ∷ ("collectorCertificate", octetarray)
    ∷ ("dot1qPriority", unsigned8)
    ∷ ("minExportSeconds", datetimeseconds)
    ∷ ("minFlowStartNanoseconds", datetimenanoseconds)
    ∷ ("totalLengthIPv4", unsigned16)
    ∷ ("tcpSynTotalCount", unsigned64)
    ∷ ("exportingProcessId", unsigned32)
    ∷ ("postMplsTopLabelExp", unsigned8)
    ∷ ("mplsLabelStackDepth", unsigned32)
    ∷ ("originalFlowsInitiated", unsigned64)
    ∷ ("postNATSourceIPv6Address", ipv6address)
    ∷ ("mplsLabelStackLength", unsigned32)
    ∷ ("privateEnterpriseNumber", unsigned32)
    ∷ ("mplsTopLabelIPv6Address", ipv6address)
    ∷ ("dataLinkFrameSize", unsigned16)
    ∷ ("postNATDestinationIPv6Address", ipv6address)
    ∷ ("exportTransportProtocol", unsigned8)
    ∷ ("flowEndNanoseconds", datetimenanoseconds)
    ∷ ("wlanChannelId", unsigned8)
    ∷ ("flowStartSeconds", datetimeseconds)
    ∷ ("mplsTopLabelStackSection", octetarray)
    ∷ ("lineCardId", unsigned32)
    ∷ ("distinctCountOfSourceIPv4Address", unsigned32)
    ∷ ("exporterIPv4Address", ipv4address)
    ∷ []

abbrev pub sixth_elements : List (String × IeType)
sixth_elements =
    ("hashIPPayloadOffset", unsigned64)
    ∷ ("ingressPhysicalInterface", unsigned32)
    ∷ ("udpSourcePort", unsigned16)
    ∷ ("bgpNextHopIPv6Address", ipv6address)
    ∷ ("flowEndDeltaMicroseconds", unsigned32)
    ∷ ("tunnelTechnology", string)
    ∷ ("portRangeEnd", unsigned16)
    ∷ ("flowStartSysUpTime", unsigned32)
    ∷ ("dot1qCustomerVlanId", unsigned16)
    ∷ ("rfc3550JitterNanoseconds", unsigned32)
    ∷ ("tcpAcknowledgementNumber", unsigned32)
    ∷ ("portRangeNumPorts", unsigned16)
    ∷ ("samplingTimeSpace", unsigned32)
    ∷ ("applicationDescription", string)
    ∷ ("bgpNextAdjacentAsNumber", unsigned32)
    ∷ ("flowDurationMicroseconds", unsigned32)
    ∷ ("packetTotalCount", unsigned64)
    ∷ ("informationElementUnits", unsigned16)
    ∷ ("mplsVpnRouteDistinguisher", octetarray)
    ∷ ("postOctetDeltaCount", unsigned64)
    ∷ ("mplsTopLabelTTL", unsigned8)
    ∷ ("mplsTopLabelIPv4Address", ipv4address)
    ∷ ("bgpNextHopIPv4Address", ipv4address)
    ∷ ("ipClassOfService", unsigned8)
    ∷ ("wlanSSID", string)
    ∷ ("flowEndMicroseconds", datetimemicroseconds)
    ∷ ("ingressUnicastPacketTotalCount", unsigned64)
    ∷ ("minFlowStartMilliseconds", datetimemilliseconds)
    ∷ ("confidenceLevel", float64)
    ∷ ("icmpCodeIPv4", unsigned8)
    ∷ ("exportInterface", unsigned32)
    ∷ ("rfc3550JitterMilliseconds", unsigned32)
    ∷ ("mplsTopLabelExp", unsigned8)
    ∷ ("nextHeaderIPv6", unsigned8)
    ∷ ("sourceIPv4Prefix", ipv4address)
    ∷ ("ipPayloadLength", unsigned32)
    ∷ ("tcpDestinationPort", unsigned16)
    ∷ ("fragmentFlags", unsigned8)
    ∷ ("observationTimeMilliseconds", datetimemilliseconds)
    ∷ ("multicastReplicationFactor", unsigned32)
    ∷ ("tcpWindowSize", unsigned16)
    ∷ ("bgpPrevAdjacentAsNumber", unsigned32)
    ∷ ("flowEndMilliseconds", datetimemilliseconds)
    ∷ ("maxExportSeconds", datetimeseconds)
    ∷ ("fragmentIdentification", unsigned32)
    ∷ ("selectorAlgorithm", unsigned16)
    ∷ ("minFlowStartSeconds", datetimeseconds)
    ∷ ("sourceMacAddress", macaddress)
    ∷ ("postOctetTotalCount", unsigned64)
    ∷ ("flowStartNanoseconds", datetimenanoseconds)
    ∷ []

abbrev pub seventh_elements : List (String × IeType)
seventh_elements =
    ("ingressInterfaceType", unsigned32)
    ∷ ("basicList", basiclist)
    ∷ ("maxFlowEndMicroseconds", datetimemicroseconds)
    ∷ ("postMCastOctetTotalCount", unsigned64)
    ∷ ("maximumTTL", unsigned8)
    ∷ ("postMCastOctetDeltaCount", unsigned64)
    ∷ ("postPacketTotalCount", unsigned64)
    ∷ ("octetDeltaCount", unsigned64)
    ∷ ("egressUnicastPacketTotalCount", unsigned64)
    ∷ ("staIPv4Address", ipv4address)
    ∷ ("natType", unsigned8)
    ∷ ("responderPackets", unsigned64)
    ∷ ("vlanId", unsigned16)
    ∷ ("subTemplateList", subtemplatelist)
    ∷ ("ipv4Options", unsigned32)
    ∷ ("postVlanId", unsigned16)
    ∷ ("icmpTypeIPv6", unsigned8)
    ∷ ("exporterTransportPort", unsigned16)
    ∷ ("icmpTypeIPv4", unsigned8)
    ∷ ("sourceTransportPort", unsigned16)
    ∷ ("distinctCountOfDestinationIPAddress", unsigned64)
    ∷ ("flowStartDeltaMicroseconds", unsigned32)
    ∷ ("exportedMessageTotalCount", unsigned64)
    ∷ ("notSentOctetTotalCount", unsigned64)
    ∷ ("connectionSumDuration", unsigned64)
    ∷ ("postSourceMacAddress", macaddress)
    ∷ ("sessionScope", unsigned8)
    ∷ ("mplsPayloadLength", unsigned32)
    ∷ ("droppedPacketDeltaCount", unsigned64)
    ∷ ("postNATDestinationIPv4Address", ipv4address)
    ∷ ("applicationCategoryName", string)
    ∷ ("informationElementIndex", unsigned16)
    ∷ ("layer2OctetTotalCount", unsigned64)
    ∷ ("monitoringIntervalEndMilliSeconds", datetimemilliseconds)
    ∷ ("maxFlowEndNanoseconds", datetimenanoseconds)
    ∷ ("flowLabelIPv6", unsigned32)
    ∷ ("ipv6ExtensionHeaders", unsigned32)
    ∷ ("mplsLabelStackSection", octetarray)
    ∷ ("distinctCountOfSourceIPAddress", unsigned64)
    ∷ ("maximumIpTotalLength", unsigned64)
    ∷ ("postDot1qVlanId", unsigned16)
    ∷ ("mplsTopLabelPrefixLength", unsigned8)
    ∷ []
