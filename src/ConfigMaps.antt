-- ===== src/ConfigMaps.antt =====
-- internal/configmap: the parser of the injector's ConfigMaps, the map of their times, and the
-- watch's filter.
pub mod Parser
pub mod Fetch
