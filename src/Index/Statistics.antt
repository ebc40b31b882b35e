-- ===== src/Index/Statistics.antt =====
-- `IndexStatistics` of index/statistics.rs, less its clock. A duration is its nanoseconds; what it sums
-- is taken to stay below the 2 ^ 64 seconds at which an addition of durations panics.
use ved_db_server.Prelude.{ℕ, ◌+◌, ◌||◌, none, some, [], ltb, ◌==◌, if◌then◌else◌}
use Prim.Native.String.{String}
use ved_db_server.Prelude.Maps.{Map, String-Eq, lookup, insert, erase}
use ved_db_server.Prelude.Bytes.{add64, sub64}

pub record IndexStat : Type 0 where
  pub lookup_count : ℕ
  pub hit_count : ℕ
  pub miss_count : ℕ
  pub total_results : ℕ
  pub total_lookup_time : ℕ
  pub max_lookup_time : ℕ
  pub min_lookup_time : ℕ

abbrev pub no_lookups : IndexStat
no_lookups = record {
  lookup_count = 0;
  hit_count = 0;
  miss_count = 0;
  total_results = 0;
  total_lookup_time = 0;
  max_lookup_time = 0;
  min_lookup_time = 0;
}

pub record GlobalStats : Type 0 where
  pub total_indexes : ℕ
  pub total_inserts : ℕ
  pub total_updates : ℕ
  pub total_deletes : ℕ
  pub total_lookups : ℕ

pub record IndexStatistics : Type 0 where
  pub index_stats : Map String IndexStat
  pub global_stats : GlobalStats

abbrev pub new : IndexStatistics
new = record {
  index_stats = [];
  global_stats = record {
    total_indexes = 0;
    total_inserts = 0;
    total_updates = 0;
    total_deletes = 0;
    total_lookups = 0;
  };
}

-- `total_indexes` is a usize, which wraps as a u64 does.
unfoldable pub add_index : IndexStatistics → String → IndexStatistics
add_index s name = record {
  index_stats = insert name no_lookups s.index_stats;
  global_stats = record s.global_stats { total_indexes = add64 s.global_stats.total_indexes 1 };
}

unfoldable pub remove_index : IndexStatistics → String → IndexStatistics
remove_index s name = elim (lookup name s.index_stats) [
  | none ↦ s
  | some stat ↦ record {
    index_stats = erase name s.index_stats;
    global_stats = record s.global_stats { total_indexes = sub64 s.global_stats.total_indexes 1 };
  }
]

unfoldable pub record_insert : IndexStatistics → IndexStatistics
record_insert s = record s {
  global_stats = record s.global_stats { total_inserts = add64 s.global_stats.total_inserts 1 };
}

unfoldable pub record_update : IndexStatistics → IndexStatistics
record_update s = record s {
  global_stats = record s.global_stats { total_updates = add64 s.global_stats.total_updates 1 };
}

unfoldable pub record_delete : IndexStatistics → IndexStatistics
record_delete s = record s {
  global_stats = record s.global_stats { total_deletes = add64 s.global_stats.total_deletes 1 };
}

-- the counters of an index after a lookup
unfoldable pub looked_up : ℕ → IndexStat → IndexStat
looked_up result_count s = record s {
  lookup_count = add64 s.lookup_count 1;
  total_results = add64 s.total_results result_count;
  hit_count = if ltb 0 result_count then add64 s.hit_count 1 else s.hit_count;
  miss_count = if ltb 0 result_count then s.miss_count else add64 s.miss_count 1;
}

unfoldable pub took : ℕ → IndexStat → IndexStat
took duration s = record s {
  total_lookup_time = s.total_lookup_time + duration;
  max_lookup_time = if ltb s.max_lookup_time duration then duration else s.max_lookup_time;
  min_lookup_time =
      if s.min_lookup_time == 0 || ltb duration s.min_lookup_time
      then duration
      else s.min_lookup_time;
}

-- `get_mut` and a change of what is found there
unfoldable pub change_stat :
    String → (IndexStat → IndexStat) → Map String IndexStat → Map String IndexStat
change_stat name f m = elim (lookup name m) [ none ↦ m | some stat ↦ insert name (f stat) m ]

unfoldable pub record_lookup : IndexStatistics → String → ℕ → IndexStatistics
record_lookup s name result_count = record {
  index_stats = change_stat name (looked_up result_count) s.index_stats;
  global_stats = record s.global_stats { total_lookups = add64 s.global_stats.total_lookups 1 };
}

unfoldable pub record_lookup_time : IndexStatistics → String → ℕ → IndexStatistics
record_lookup_time s name duration = record s {
  index_stats = change_stat name (took duration) s.index_stats;
}
