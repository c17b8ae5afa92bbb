-- ===== src/Examples/Stream.antt =====
-- The theorem on the hub of internal/api/sse.go, for a browser that gets one event.
use network_enumerator.Common.{All, text}
use network_enumerator.Store.Schema.{EventRow}
use network_enumerator.Api.Hub.{
  Hub, new_hub, subscribe, broadcast, receive, leave, at_client, subscribes, broadcasts, receives,
  leaves, started, stepped,
}
use network_enumerator.Api.Hub.Delivery.{IsSound, hub-IsSound}

abbrev news : EventRow
news = record {
  id = 1;
  type = text "new_host";
  message = text "New host discovered: 10.0.0.1";
  entity_id = 1;
  timestamp = 100;
}

abbrev open_hub : Hub
open_hub = subscribe new_hub

abbrev told_hub : Hub
told_hub = at_client 0 receive (broadcast news open_hub)

hub-IsSound_example : All IsSound (at_client 0 leave told_hub).clients
hub-IsSound_example = hub-IsSound (
    stepped told_hub (at_client 0 leave told_hub)
      (stepped (broadcast news open_hub) told_hub
        (stepped open_hub (broadcast news open_hub)
          (stepped new_hub open_hub started (subscribes new_hub)) (broadcasts news open_hub))
        (receives 0 (broadcast news open_hub)))
      (leaves 0 told_hub))
