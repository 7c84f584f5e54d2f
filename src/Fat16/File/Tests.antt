-- ===== src/Fat16/File/Tests.antt =====
-- A seek from the end, and the theorem on it applied.
use mo_os.Prelude.{◌-◌, ◌≡◌, refl}
use mo_os.Prelude.Word.{u32_mod}
use mo_os.Prelude.Status.{ok}
use mo_os.Fat16.Sample.{sample_item}
use mo_os.Fat16.Directory.{file_item}
use mo_os.Fat16.File.{seek_item, fat16_seek, Descriptor, mode_read, seek_end}

abbrev opened : Descriptor
opened = record { item = file_item sample_item; pos = 100; mode = mode_read; dir_entry_pos = 0 }

-- 8 bytes before the end.
run_seek : fat16_seek opened (u32_mod - 8) seek_end ≡ (ok tt, record opened { pos = 592 })
unfolding seek_item
run_seek = refl
