-- ===== src/Clock/Tests.antt =====
-- The theorems on times and sizes at concrete inputs.
use tout_os.Base.{◌^◌, ◌≤◌, ◌<◌, ◌≡◌, ◌⊎◌, mul64}
use tout_os.Clock.{get_order}
use tout_os.Clock.Order.{get_order-Least}
use tout_os.Pages.{page_size}

get_order-Least_example :
    ((get_order 10000 ≡ 64) ⊎ (10000 ≤ mul64 (2 ^ get_order 10000) page_size))
    × ((get_order 10000 ≤ 1) ⊎ (mul64 (2 ^ 1) page_size < 10000))
get_order-Least_example = get_order-Least 10000 1
