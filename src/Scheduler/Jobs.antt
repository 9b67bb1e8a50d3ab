-- ===== src/Scheduler/Jobs.antt =====
-- The watchlist and the background jobs (internal/datastore/sqlite/sqlite.go, pkg/model/analysis.go).
-- The rows of a table stand in a list; times are numbers of seconds.
use optix.Base.{
  ℕ, suc, ◌+◌, ◌*◌, Bool, true, false, ◌&&◌, List, [], ◌∷◌, Option, none, some, ltb, leb, ◌==◌,
  if◌then◌else◌, keep,
}
use optix.Base.Text.{Text, text_eq}
use optix.Base.Time.{Instant}
use optix.Base.Sort.{stable_sort}

pub record WatchlistRow : Type 0 where
  pub symbol : Text
  pub auto_refresh_enabled : Bool
  pub refresh_interval_minutes : ℕ
  pub last_refreshed_at : Option Instant

pub record SymbolRefresh : Type 0 where
  pub symbol : Text
  pub interval : ℕ
  pub last_refresh : Instant

-- The `WHERE` of GetSymbolsNeedingRefresh.
abbrev pub is_due : Instant → WatchlistRow → Bool
is_due now w = w.auto_refresh_enabled && elim w.last_refreshed_at [
  | none ↦ true
  | some t ↦ leb (t + w.refresh_interval_minutes * 60) now
]

-- `ORDER BY last_refreshed_at ASC NULLS FIRST`
abbrev refreshed_before : WatchlistRow → WatchlistRow → Bool
refreshed_before a b = elim b.last_refreshed_at [
  | none ↦ false
  | some u ↦ elim a.last_refreshed_at [ none ↦ true | some t ↦ ltb t u ]
]

-- 1970-01-01T00:00:00Z
abbrev pub epoch : Instant
epoch = 62167219200

abbrev pub refresh_of : WatchlistRow → SymbolRefresh
refresh_of w = record {
  symbol = w.symbol;
  interval = w.refresh_interval_minutes;
  last_refresh = elim w.last_refreshed_at [ none ↦ epoch | some t ↦ t ];
}

abbrev refreshes : List WatchlistRow → List SymbolRefresh
refreshes [] = []
refreshes (w ∷ ws) = refresh_of w ∷ refreshes ws

unfoldable pub get_symbols_needing_refresh : Instant → List WatchlistRow → List SymbolRefresh
unfolding stable_sort
get_symbols_needing_refresh now ws = refreshes (stable_sort refreshed_before (keep (is_due now) ws))

unfoldable pub update_last_refresh_time : Text → Instant → List WatchlistRow → List WatchlistRow
update_last_refresh_time symbol t [] = []
update_last_refresh_time symbol t (w ∷ ws) =
    (if text_eq w.symbol symbol then record w { last_refreshed_at = some t } else w)
    ∷ update_last_refresh_time symbol t ws

pub data Status : Type 0 where
  pending running success failed : Status

pub record BackgroundJob : Type 0 where
  pub id : ℕ
  pub symbol : Text
  pub job_type : Text
  pub status : Status
  pub started_at : Option Instant
  pub completed_at : Option Instant
  pub error_message : Text
  pub retry_count : ℕ
  pub created_at : Instant

-- The table, and the identifier that AUTOINCREMENT gives next; the first is 1.
pub record JobTable : Type 0 where
  pub rows : List BackgroundJob
  pub next_id : ℕ

abbrev pub no_jobs : JobTable
no_jobs = record { rows = []; next_id = 1 }

unfoldable pub create_background_job : BackgroundJob → JobTable → ℕ × JobTable
create_background_job job t = (
  t.next_id,
  record {
    rows = record job { id = t.next_id; completed_at = none } ∷ t.rows;
    next_id = suc t.next_id;
  },
)

abbrev updated : BackgroundJob → BackgroundJob → BackgroundJob
updated job row =
    if row.id == job.id
    then record row {
      status = job.status;
      completed_at = job.completed_at;
      error_message = job.error_message;
      retry_count = job.retry_count;
    }
    else row

unfoldable pub update_rows : BackgroundJob → List BackgroundJob → List BackgroundJob
update_rows job [] = []
update_rows job (row ∷ rows) = updated job row ∷ update_rows job rows

unfoldable pub update_background_job : BackgroundJob → JobTable → JobTable
unfolding update_rows
update_background_job job t = record t { rows = update_rows job t.rows }

unfoldable pub find_job : ℕ → List BackgroundJob → Option BackgroundJob
find_job i [] = none
find_job i (row ∷ rows) = if row.id == i then some row else find_job i rows

unfoldable pub get_background_job : ℕ → JobTable → Option BackgroundJob
unfolding find_job
get_background_job i t = find_job i t.rows
