-- ===== src/Tests/Buffers.antt =====
-- One buffer manager.
use tcpchatserver.Base.{◌+◌, ◌*◌, ◌≤◌, ◌<◌, ◌≡◌, refl, arith, true, false}
use tcpchatserver.Context.{message_size}
use tcpchatserver.Buffer.{
  UringBuffer, num_io_buffers, io_buffer_size, io_uring_buf_size, buffer_ring_size, no_buffer,
  get_buffer_base_addr, get_buffer_addr, fill_buffer_ring, mark_buffer_in_use, release_buffer,
  is_buffer_in_use, get_buffer_client, find_client_buffer, u64,
}
use tcpchatserver.Buffer.Ownership.{IsValid, here, next, mark, release, Reach-fill-IsValid}
use tcpchatserver.Buffer.Clients.{release_forgets}
use tcpchatserver.Buffer.Address.{get_buffer_addr_region}
use tcpchatserver.Tests.{buffers_in, taken_info}
use tcpchatserver.Buffer.{fresh_info}

abbrev started : UringBuffer
started = fill_buffer_ring 65536 (λ _. 0)

abbrev after_read : UringBuffer
after_read = mark_buffer_in_use 3 7 started

started-in_use : (started.buffers 3).in_use ≡ false
unfolding fill_buffer_ring
started-in_use = refl

started-total_uses : (started.buffers 3).total_uses + 1 < u64
unfolding fill_buffer_ring
started-total_uses = omega arith

Reach-fill-IsValid_example : IsValid (release_buffer 3 after_read.base_addr after_read)
Reach-fill-IsValid_example =
    Reach-fill-IsValid 65536 (λ _. 0)
      (next (next here (mark 3 7 started-in_use started-total_uses)) (release 3))

abbrev taken : UringBuffer
taken = buffers_in taken_info (λ _. 0)

abbrev released : UringBuffer
released = release_buffer 5 0 taken

abbrev idle : UringBuffer
idle = buffers_in fresh_info (λ _. 0)

abbrev one_released : UringBuffer
one_released = release_buffer 2 0 (mark_buffer_in_use 3 7 (mark_buffer_in_use 2 7 idle))

release_forgets_example :
    (find_client_buffer 7 one_released ≡ no_buffer)
    × (is_buffer_in_use 3 one_released ≡ true)
    × (get_buffer_client 3 one_released ≡ 7)
release_forgets_example =
    release_forgets 2 3 7 0 idle (omega arith) (omega arith) (omega arith) refl

get_buffer_addr_region_example :
    (65536 + io_uring_buf_size * num_io_buffers ≤ get_buffer_addr 2 (get_buffer_base_addr 65536))
    × (get_buffer_addr 2 (get_buffer_base_addr 65536) + io_buffer_size
        ≤ get_buffer_addr 4095 (get_buffer_base_addr 65536))
    × (get_buffer_addr 4095 (get_buffer_base_addr 65536) + io_buffer_size
        ≤ 65536 + buffer_ring_size)
    × (get_buffer_addr 2 (get_buffer_base_addr 65536) + message_size
        ≤ get_buffer_addr 4095 (get_buffer_base_addr 65536))
get_buffer_addr_region_example = get_buffer_addr_region 65536 2 4095 (omega arith) (omega arith)
