-- ===== src/Examples/Exporter.antt =====
-- The exporter of metrics/src/main.rs on a notification.
use samsung_nasa.Base.{◌≡◌, [], ◌∷◌, none}
use samsung_nasa.Base.Perms.{flat}
use samsung_nasa.Packet.DataType
use samsung_nasa.Packet.MessageKind.{MessageId}
use samsung_nasa.Packet.Types.{Packet}
use samsung_nasa.Messages.{id}
use samsung_nasa.Metrics.{run_bus, render_metrics}
use samsung_nasa.Metrics.Latest.{reports, last_told}
use samsung_nasa.Metrics.Render.{raw_of, gauge_of, as_list, int_option}
use samsung_nasa.Metrics.Page.{Gauge, name_of, message_of, reading, render_metrics-run_bus}
use samsung_nasa.Examples.{request, indoor_unit}

abbrev told : Packet
told = record request { source = indoor_unit; data_type = DataType.notification }

render_metrics-run_bus_example :
    let page = render_metrics (run_bus (told ∷ request ∷ []) []) in
    ((i : MessageId)
      → flat (raw_of indoor_unit i) page
        ≡ as_list (int_option (last_told indoor_unit i (reports (told ∷ request ∷ [])) none)))
    × ((g : Gauge)
        → flat (gauge_of indoor_unit (name_of g)) page
          ≡ as_list (
              reading
                (last_told indoor_unit (id (message_of g)) (reports (told ∷ request ∷ [])) none)))
render_metrics-run_bus_example = render_metrics-run_bus (told ∷ request ∷ []) indoor_unit
