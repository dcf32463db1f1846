-- ===== src/Ipfix/Elements.antt =====
-- src/ipfix-constants.c, `get_ipfix_type`: the information elements in the order in which it
-- compares them, fifty to a list.
use Prim.Native.String.{String}
use nfql.Prelude.{List, [], ◌∷◌}
use nfql.Ipfix.Types.{
  IeType, boolean, datetimemicroseconds, datetimemilliseconds, datetimenanoseconds, datetimeseconds,
  float64, ipv4address, ipv6address, macaddress, octetarray, string, subtemplatemultilist,
  unsigned16, unsigned32, unsigned64, unsigned8,
}

abbrev pub first_elements : List (String × IeType)
first_elements =
    ("VRFname", string)
    ∷ ("flowKeyIndicator", unsigned64)
    ∷ ("informationElementSemantics", unsigned8)
    ∷ ("flowStartMicroseconds", datetimemicroseconds)
    ∷ ("ipPayloadPacketSection", octetarray)
    ∷ ("upperCILimit", float64)
    ∷ ("ipTTL", unsigned8)
    ∷ ("observationTimeSeconds", datetimeseconds)
    ∷ ("postMCastPacketTotalCount", unsigned64)
    ∷ ("tcpUrgTotalCount", unsigned64)
    ∷ ("anonymizationFlags", unsigned16)
    ∷ ("postPacketDeltaCount", unsigned64)
    ∷ ("egressInterface", unsigned32)
    ∷ ("flowIdleTimeout", unsigned16)
    ∷ ("informationElementName", string)
    ∷ ("responderOctets", unsigned64)
    ∷ ("collectionTimeMilliseconds", datetimemilliseconds)
    ∷ ("originalFlowsCompleted", unsigned64)
    ∷ ("flowId", unsigned64)
    ∷ ("monitoringIntervalStartMilliSeconds", datetimemilliseconds)
    ∷ ("tcpSourcePort", unsigned16)
    ∷ ("tcpSequenceNumber", unsigned32)
    ∷ ("commonPropertiesId", unsigned64)
    ∷ ("ipVersion", unsigned8)
    ∷ ("octetTotalCount", unsigned64)
    ∷ ("flowDurationMilliseconds", unsigned32)
    ∷ ("egressInterfaceType", unsigned32)
    ∷ ("udpDestinationPort", unsigned16)
    ∷ ("distinctCountOfDestinationIPv4Address", unsigned32)
    ∷ ("selectorIdTotalPktsObserved", unsigned64)
    ∷ ("ethernetPayloadLength", unsigned16)
    ∷ ("connectionCountNew", unsigned32)
    ∷ ("valueDistributionMethod", unsigned8)
    ∷ ("flowActiveTimeout", unsigned16)
    ∷ ("observationTimeMicroseconds", datetimemicroseconds)
    ∷ ("dot1qCustomerDEI", boolean)
    ∷ ("sourceIPv6PrefixLength", unsigned8)
    ∷ ("rfc3550JitterMicroseconds", unsigned32)
    ∷ ("applicationGroupName", string)
    ∷ ("minFlowStartMicroseconds", datetimemicroseconds)
    ∷ ("egressBroadcastPacketTotalCount", unsigned64)
    ∷ ("dot1qCustomerPriority", unsigned8)
    ∷ ("tcpAckTotalCount", unsigned64)
    ∷ ("collectorIPv6Address", ipv6address)
    ∷ ("hashSelectedRangeMax", unsigned64)
    ∷ ("pseudoWireId", unsigned32)
    ∷ ("rtpSequenceNumber", unsigned16)
    ∷ ("samplingPacketInterval", unsigned32)
    ∷ ("ingressMulticastPacketTotalCount", unsigned64)
    ∷ ("lowerCILimit", float64)
    ∷ []

abbrev pub second_elements : List (String × IeType)
second_elements =
    ("p2pTechnology", string)
    ∷ ("samplingPacketSpace", unsigned32)
    ∷ ("selectionSequenceId", unsigned64)
    ∷ ("destinationIPv4PrefixLength", unsigned8)
    ∷ ("informationElementId", unsigned16)
    ∷ ("encryptedTechnology", string)
    ∷ ("collectorIPv4Address", ipv4address)
    ∷ ("mplsTopLabelType", unsigned8)
    ∷ ("greKey", unsigned32)
    ∷ ("flowEndReason", unsigned8)
    ∷ ("postDestinationMacAddress", macaddress)
    ∷ ("egressVRFID", unsigned32)
    ∷ ("hashIPPayloadSize", unsigned64)
    ∷ ("natPoolId", unsigned32)
    ∷ ("egressPhysicalInterface", unsigned32)
    ∷ ("mplsLabelStackSection8", octetarray)
    ∷ ("selectorIdTotalPktsSelected", unsigned64)
    ∷ ("paddingOctets", octetarray)
    ∷ ("hashOutputRangeMax", unsigned64)
    ∷ ("sourceIPv6Address", ipv6address)
    ∷ ("initiatorPackets", unsigned64)
    ∷ ("ingressInterface", unsigned32)
    ∷ ("destinationIPv4Prefix", ipv4address)
    ∷ ("ignoredPacketTotalCount", unsigned64)
    ∷ ("droppedPacketTotalCount", unsigned64)
    ∷ ("ipNextHopIPv6Address", ipv6address)
    ∷ ("bgpDestinationAsNumber", unsigned32)
    ∷ ("subTemplateMultiList", subtemplatemultilist)
    ∷ ("octetDeltaSumOfSquares", unsigned64)
    ∷ ("mplsLabelStackSection10", octetarray)
    ∷ ("virtualStationInterfaceId", octetarray)
    ∷ ("ethernetTotalLength", unsigned16)
    ∷ ("firewallEvent", unsigned8)
    ∷ ("tcpFinTotalCount", unsigned64)
    ∷ ("protocolIdentifier", unsigned8)
    ∷ ("droppedOctetDeltaCount", unsigned64)
    ∷ ("flowEndSeconds", datetimeseconds)
    ∷ ("exporterIPv6Address", ipv6address)
    ∷ ("droppedOctetTotalCount", unsigned64)
    ∷ ("postNAPTDestinationTransportPort", unsigned16)
    ∷ ("sourceIPv4PrefixLength", unsigned8)
    ∷ ("dot1qDEI", boolean)
    ∷ ("flowDirection", unsigned8)
    ∷ ("ethernetHeaderLength", unsigned8)
    ∷ ("igmpType", unsigned8)
    ∷ ("octetTotalSumOfSquares", unsigned64)
    ∷ ("selectorName", string)
    ∷ ("interfaceDescription", string)
    ∷ ("icmpCodeIPv6", unsigned8)
    ∷ ("exportedOctetTotalCount", unsigned64)
    ∷ []

abbrev pub third_elements : List (String × IeType)
third_elements =
    ("applicationSubCategoryName", string)
    ∷ ("ethernetType", unsigned16)
    ∷ ("hashDigestOutput", boolean)
    ∷ ("udpMessageLength", unsigned16)
    ∷ ("minimumTTL", unsigned8)
    ∷ ("samplingPopulation", unsigned32)
    ∷ ("maxFlowEndMilliseconds", datetimemilliseconds)
    ∷ ("minimumIpTotalLength", unsigned64)
    ∷ ("postIpClassOfService", unsigned8)
    ∷ ("connectionTransactionId", unsigned64)
    ∷ ("destinationIPv6Prefix", ipv6address)
    ∷ ("observationDomainId", unsigned32)
    ∷ ("originalFlowsPresent", unsigned64)
    ∷ ("natPoolName", string)
    ∷ ("messageMD5Checksum", octetarray)
    ∷ ("mplsLabelStackSection9", octetarray)
    ∷ ("exporterCertificate", octetarray)
    ∷ ("mplsLabelStackSection7", octetarray)
    ∷ ("mplsLabelStackSection6", octetarray)
    ∷ ("mplsLabelStackSection5", octetarray)
    ∷ ("mplsLabelStackSection4", octetarray)
    ∷ ("mplsLabelStackSection3", octetarray)
    ∷ ("mplsLabelStackSection2", octetarray)
    ∷ ("exportedFlowRecordTotalCount", unsigned64)
    ∷ ("interfaceName", string)
    ∷ ("relativeError", float64)
    ∷ ("sourceIPv4Address", ipv4address)
    ∷ ("virtualStationName", string)
    ∷ ("fragmentOffset", unsigned16)
    ∷ ("tcpPshTotalCount", unsigned64)
    ∷ ("informationElementRangeEnd", unsigned64)
    ∷ ("hashSelectedRangeMin", unsigned64)
    ∷ ("applicationName", string)
    ∷ ("portId", unsigned32)
    ∷ ("postDot1qCustomerVlanId", unsigned16)
    ∷ ("notSentFlowTotalCount", unsigned64)
    ∷ ("tcpWindowScale", unsigned16)
    ∷ ("ingressVRFID", unsigned32)
    ∷ ("deltaFlowCount", unsigned64)
    ∷ ("postIpPrecedence", unsigned8)
    ∷ ("hashInitialiserValue", unsigned64)
    ∷ ("exportSctpStreamId", unsigned16)
    ∷ ("observationTimeNanoseconds", datetimenanoseconds)
    ∷ ("destinationIPv4Address", ipv4address)
    ∷ ("anonymizationTechnique", unsigned16)
    ∷ ("natEvent", unsigned8)
    ∷ ("sourceIPv6Prefix", ipv6address)
    ∷ ("notSentPacketTotalCount", unsigned64)
    ∷ ("dataLinkFrameSection", octetarray)
    ∷ ("mplsPayloadPacketSection", octetarray)
    ∷ []

abbrev pub fourth_elements : List (String × IeType)
fourth_elements =
    ("portRangeStart", unsigned16)
    ∷ ("ingressBroadcastPacketTotalCount", unsigned64)
    ∷ ("systemInitTimeMilliseconds", datetimemilliseconds)
    ∷ ("informationElementDescription", string)
    ∷ ("ipDiffServCodePoint", unsigned8)
    ∷ ("destinationTransportPort", unsigned16)
    ∷ ("dataRecordsReliability", boolean)
    ∷ ("natOriginatingAddressRealm", unsigned8)
    ∷ ("IPSecSPI", unsigned32)
    ∷ ("maxFlowEndSeconds", datetimeseconds)
    ∷ ("collectorTransportPort", unsigned16)
    ∷ ("ipNextHopIPv4Address", ipv4address)
    ∷ ("destinationIPv6PrefixLength", unsigned8)
    ∷ ("tcpUrgentPointer", unsigned16)
    ∷ ("observationDomainName", string)
    ∷ ("userName", string)
    ∷ ("bgpValidityState", unsigned8)
    ∷ ("portRangeStepSize", unsigned16)
    ∷ ("dot1qVlanId", unsigned16)
    ∷ ("observedFlowTotalCount", unsigned64)
    ∷ ("tcpRstTotalCount", unsigned64)
    ∷ ("informationElementDataType", unsigned8)
    ∷ ("pseudoWireControlWord", unsigned32)
    ∷ ("digestHashValue", unsigned64)
    ∷ ("exportProtocolVersion", unsigned8)
    ∷ ("samplingProbability", float64)
    ∷ ("postIpDiffServCodePoint", unsigned8)
    ∷ ("destinationIPv6Address", ipv6address)
    ∷ ("postNAPTSourceTransportPort", unsigned16)
    ∷ ("messageScope", unsigned8)
    ∷ ("observationPointType", unsigned8)
    ∷ ("tcpOptions", unsigned64)
    ∷ ("ipHeaderPacketSection", octetarray)
    ∷ ("ipTotalLength", unsigned64)
    ∷ ("packetDeltaCount", unsigned64)
    ∷ ("ignoredOctetTotalCount", unsigned64)
    ∷ ("distinctCountOfDestinationIPv6Address", unsigned64)
    ∷ ("distinctCountOfSourceIPv6Address", unsigned64)
    ∷ ("tcpHeaderLength", unsigned8)
    ∷ ("ipHeaderLength", unsigned8)
    ∷ ("hashOutputRangeMin", unsigned64)
    ∷ ("postMCastPacketDeltaCount", unsigned64)
    ∷ ("pseudoWireType", unsigned16)
    ∷ ("staMacAddress", macaddress)
    ∷ ("observationPointId", unsigned64)
    ∷ ("icmpTypeCodeIPv4", unsigned16)
    ∷ ("icmpTypeCodeIPv6", unsigned16)
    ∷ ("payloadLengthIPv6", unsigned16)
    ∷ ("biflowDirection", unsigned8)
    ∷ ("opaqueOctets", octetarray)
    ∷ []
