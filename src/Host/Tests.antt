-- ===== src/Host/Tests.antt =====
-- The host's calls at a concrete system: one with pages of 4096 bytes whose files are empty.
use os_lab_nachos.Base.{◌*◌, ◌+◌, ◌≡◌, refl, [], ◌∷◌}
use os_lab_nachos.Base.Exec.{ok, and_then}
use os_lab_nachos.Base.Int.{pos}
use os_lab_nachos.Host.{
  System, new, delete, mprotect, read_file, read_from_socket, alloc_bounded_array,
  dealloc_bounded_array,
}
use os_lab_nachos.Host.Arrays.{block, dealloc-alloc}
use os_lab_nachos.Host.Files.{Whole, read_file-Whole}

abbrev empty_files : System
empty_files = record {
  number = λ s c. pos 0;
  bytes = λ s c. [];
  address = λ s c. 1000;
  page_size = 4096;
}

read_file-Whole_run :
    Whole 5 (read_file empty_files 3 5 []) × Whole 5 (read_from_socket empty_files 3 5 [])
read_file-Whole_run = read_file-Whole empty_files (λ s c. refl) 3 5 []

dealloc-alloc_example :
    (alloc_bounded_array empty_files 100 [] ≡ ok (block empty_files [] 100 + 4096) (new 8292 ∷ []))
    × (and_then
          (alloc_bounded_array empty_files 100 [])
          (λ ptr. dealloc_bounded_array empty_files ptr 100)
        ≡ ok tt (new 8292 ∷ mprotect 1000 4096 ∷ mprotect 5196 4096 ∷ delete 1000 ∷ []))
    × (1000 + 4096 + 100 + 4096 ≡ 1000 + (4096 * 2 + 100))
dealloc-alloc_example = dealloc-alloc empty_files 100 []
