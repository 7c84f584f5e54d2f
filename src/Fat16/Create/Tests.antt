-- ===== src/Fat16/Create/Tests.antt =====
-- Where a new file goes on the small volume.
use mo_os.Prelude.{◌≡◌, refl, [], ◌∷◌}
use mo_os.Prelude.Status.{ok}
use mo_os.Fat16.Sample.{sample_root, sample}
use mo_os.Fat16.Create.{run_loop, fat16_find_free_slot, fat16_get_parent, done}

-- A name alone is in the root directory.
created :
    (fat16_get_parent ((b'X' ∷ []) ∷ []) sample)
    ≡ done (ok (record { directory = sample_root; name = b'X' ∷ [] }))
unfolding fat16_get_parent
created = refl

-- One item fits behind it.
free_slot : (fat16_find_free_slot sample_root 1 sample).0 ≡ ok 1
unfolding fat16_find_free_slot run_loop
free_slot = refl
