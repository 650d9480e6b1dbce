-- ===== src/Memory/Tests.antt =====
-- Runs of the memory functions, and their theorems at concrete inputs.
use m.Prelude.{◌≡◌, refl}
use m.Memory.{Bytes, memset, memcpy, memmove}
use m.Memory.Copy.{moved, memmove-moved}

abbrev image : Bytes
image a = a

-- an overlapping move, upwards and downwards
move_up : memmove 12 10 4 image 15 ≡ 13
unfolding memmove m.Memory.copy_backward m.Memory.store
move_up = refl

move_down : memmove 10 12 4 image 10 ≡ 12
unfolding memmove m.Memory.copy_forward m.Memory.store
move_down = refl

memmove-moved_example : memmove 12 10 4 image 15 ≡ moved 12 10 4 image image 15
memmove-moved_example = memmove-moved 12 10 4 image 15
