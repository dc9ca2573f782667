-- ===== src/Server/Metrics/Examples.antt =====
-- Two requests, of which one is still under way.
use my_ngrok.Base.{List, [], ◌∷◌, Bytes, bytes}
use my_ngrok.Server.Metrics.{Event, starts, ends}

abbrev get_method : Bytes
get_method = bytes "GET"

abbrev requests : List Event
requests =
    starts get_method (bytes "/api/v1/traffic")
    ∷ starts get_method (bytes "/api/v1/tunnels")
    ∷ starts get_method (bytes "/health/live")
    ∷ ends get_method (bytes "/api/v1/traffic") 7
    ∷ []

abbrev key : Bytes
key = bytes "GET:api"
