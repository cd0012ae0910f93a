-- ===== src/Examples/Feeds.antt =====
-- Events by day.
use the_eye.Base.{[], ◌≡◌, ◌==◌, filter}
use the_eye.Base.Dict.{lookup}
use the_eye.Grouping.{group_trail}
use the_eye.Grouping.Laws.{non_empty, lookup-group_trail}
use the_eye.Examples.Data.{newer}

lookup-group_trail_example :
    lookup "2025-01-01T00:00:00Z" (group_trail (λ e. e.occurred_at) [] newer)
    ≡ non_empty (filter (λ e. e.occurred_at == "2025-01-01T00:00:00Z") newer)
lookup-group_trail_example = lookup-group_trail (λ e. e.occurred_at) "2025-01-01T00:00:00Z" newer
