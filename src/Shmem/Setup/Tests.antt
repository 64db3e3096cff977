-- ===== src/Shmem/Setup/Tests.antt =====
-- A worker that looks before the manager has set the length of the file, and a pod that finds a
-- short one.
use hami_vnpu_core_hhy.Common.{[], ◌≡◌, false, true, none, some, ◌∷◌, replicate}
use hami_vnpu_core_hhy.Common.Words.{pos}
use hami_vnpu_core_hhy.Shmem.{GlobalRegistry, LocalContainerShmem, zeroed_shmem, max_managers}
use hami_vnpu_core_hhy.Shmem.Setup.{Os, open_global_registry}
use hami_vnpu_core_hhy.Shmem.Setup.Descriptors.{
  held, MapsWithin, found, open_global_registry-unsized,
}

abbrev short : Os LocalContainerShmem
short = record {
  path_has_nul = false;
  has_parent = true;
  fd = some 3;
  created = some 4;
  truncated = true;
  st_size = some (pos 0);
  memory = some zeroed_shmem;
}

abbrev registry : GlobalRegistry
registry = record {
  lock_owner = 0;
  lock_timestamp = 0;
  queue_head = 0;
  queue_tail = 0;
  queue = replicate max_managers 0;
  slots = [];
  signal_counter = 0;
}

abbrev answers : Os GlobalRegistry
answers = record {
  path_has_nul = false;
  has_parent = true;
  fd = none;
  created = none;
  truncated = false;
  st_size = some (pos 0);
  memory = none;
}

open_global_registry-unsized_example :
    (let r = open_global_registry 4_000 (found answers 5 registry) in
      (r.result ≡ some registry) × (held [] r.calls ≡ 5 ∷ []) × ¬ MapsWithin [] r.calls)
open_global_registry-unsized_example = open_global_registry-unsized 4_000 5 registry answers
