-- ===== src/Json/Nils.antt =====
-- What `finalize` does with a nil traced flow.
use pcap_sidecar.Common.{nat_eq}
