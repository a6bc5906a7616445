-- ===== src/Memory/Tests.antt =====
-- The block routines on a small memory.
use nyan_os.Base.{◌%◌, arith, inr}
use nyan_os.Memory.{Mem, memcpy, memmove, memset, memcmp}
use nyan_os.Memory.Copy.{Copied, memcpy-Copied, memmove-Copied}
use nyan_os.Memory.Fill.{Filled, memset-Filled}
use nyan_os.Memory.Compare.{Compared, memcmp-Compared}

abbrev address_bytes : Mem
address_bytes a = a % 251

memcpy-Copied_example : Copied 1003 515 address_bytes 0 100 (memcpy 1003 515 100 address_bytes)
memcpy-Copied_example = memcpy-Copied 1003 515 100 (inr (omega arith)) address_bytes

memmove-Copied_example : Copied 520 515 address_bytes 0 100 (memmove 520 515 100 address_bytes)
memmove-Copied_example = memmove-Copied 520 515 100 address_bytes

memset-Filled_example : Filled 515 65 address_bytes 100 (memset 515 65 100 address_bytes)
memset-Filled_example = memset-Filled 515 65 100 address_bytes

memcmp-Compared_example : Compared 515 620 100 address_bytes (memcmp 515 620 100 address_bytes)
memcmp-Compared_example = memcmp-Compared 515 620 100 address_bytes
