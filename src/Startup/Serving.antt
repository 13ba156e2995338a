-- ===== src/Startup/Serving.antt =====
-- What has happened when the program waits for a signal.
use build_api.Common.{String, List, [], ◌∷◌}
use build_api.Startup.{Event, pool_opened, listening, client_created}

-- The pool was opened, the gRPC server listens, and then the gateway connects for its four services.
abbrev pub serving_events : String → List Event
serving_events addr =
    pool_opened
    ∷ listening addr
    ∷ client_created addr
    ∷ client_created addr
    ∷ client_created addr
    ∷ client_created addr
    ∷ []
