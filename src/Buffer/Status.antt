-- ===== src/Buffer/Status.antt =====
-- UringBuffer::printBufferStatus: the totals that it counts, and what it logs.
use tcpchatserver.Base.{
  ℕ, zero, suc, ◌+◌, ◌-◌, ◌%◌, List, ◌++◌, ◌≤◌, ◌<◌, ◌≡◌, refl, sym, subst, Bool-cases, inl, inr,
  Bool, true, false, arith, ◌==◌, ◌&&◌, if◌then◌else◌,
}
use tcpchatserver.Base.Int.{ℤ}
use tcpchatserver.Base.Text.{codes}
use tcpchatserver.Base.Decimal.{to_string_u64}
use tcpchatserver.Logger.{Entry, Logger, LogLevel, log}
use tcpchatserver.Buffer.{
  no_buffer, BufferInfo, UringBuffer, num_io_buffers, u64, update, mark_buffer_in_use,
  release_buffer,
}

pub record BufferStatus : Type 0 where
  pub total_in_use : ℕ
  pub total_bytes_used : ℕ

abbrev count_buffer : BufferInfo → BufferStatus → BufferStatus
count_buffer b t =
    if b.in_use
    then record {
      total_in_use = t.total_in_use + 1;
      total_bytes_used = (t.total_bytes_used + b.bytes_used) % u64;
    }
    else t

-- The loop over `i`, with `left` rounds to go.
status_loop : (left i : ℕ) → (ℕ → BufferInfo) → BufferStatus → BufferStatus
status_loop zero i buffers t = t
status_loop (suc left) i buffers t = status_loop left (suc i) buffers (count_buffer (buffers i) t)

unfoldable pub buffer_status : UringBuffer → BufferStatus
unfolding status_loop
buffer_status u =
    status_loop num_io_buffers 0 u.buffers (record { total_in_use = 0; total_bytes_used = 0 })

-- How many of the buffers from `i` on are in use.
abbrev one_if : Bool → ℕ
one_if true = 1
one_if false = 0

in_use_from : (left i : ℕ) → (ℕ → BufferInfo) → ℕ
in_use_from zero i buffers = 0
in_use_from (suc left) i buffers = one_if (buffers i).in_use + in_use_from left (suc i) buffers

status_loop-in_use :
    (left i : ℕ) (buffers : ℕ → BufferInfo) (t : BufferStatus)
    → (status_loop left i buffers t).total_in_use ≡ t.total_in_use + in_use_from left i buffers
unfolding status_loop in_use_from
status_loop-in_use zero i buffers t = omega arith
status_loop-in_use (suc left) i buffers t =
    ground (arith, status_loop-in_use left (suc i) buffers (count_buffer (buffers i) t))

in_use_from-update_before :
    (left i j : ℕ) (b : BufferInfo) (buffers : ℕ → BufferInfo)
    → j < i
    → in_use_from left i (update buffers j b) ≡ in_use_from left i buffers
unfolding in_use_from
in_use_from-update_before zero i j b buffers h = refl
in_use_from-update_before (suc left) i j b buffers h =
    ground (arith, in_use_from-update_before left (suc i) j b buffers)

in_use_from-update :
    (left i j : ℕ) (b : BufferInfo) (buffers : ℕ → BufferInfo)
    → i ≤ j
    → j < i + left
    → in_use_from left i (update buffers j b) + one_if (buffers j).in_use
      ≡ in_use_from left i buffers + one_if b.in_use
unfolding in_use_from
in_use_from-update zero i j b buffers lo hi = absurd (omega arith)
in_use_from-update (suc left) i j b buffers lo hi = ground (
  arith,
  in_use_from-update_before left (suc i) j b buffers,
  in_use_from-update left (suc i) j b buffers,
)

loop_update :
    (n j : ℕ) (b : BufferInfo) (f g : ℕ → BufferInfo) (t : BufferStatus)
    → j < n
    → g ≡ update f j b
    → (status_loop n 0 g t).total_in_use + one_if (f j).in_use
      ≡ (status_loop n 0 f t).total_in_use + one_if b.in_use
loop_update n j b f g t h same =
    let one = status_loop-in_use n 0 f t in
    let two = status_loop-in_use n 0 (update f j b) t in
    let three = in_use_from-update n 0 j b f (omega arith) (omega arith) in
    subst
      (λ k.
        (status_loop n 0 k t).total_in_use + one_if (f j).in_use
        ≡ (status_loop n 0 f t).total_in_use + one_if b.in_use)
      (sym same) (omega (arith, one, two, three))

-- Writing one buffer's entry changes the count by that entry.
buffer_status-update :
    (u v : UringBuffer) (j : ℕ) (b : BufferInfo)
    → j < num_io_buffers
    → v.buffers ≡ update u.buffers j b
    → (buffer_status v).total_in_use + one_if (u.buffers j).in_use
      ≡ (buffer_status u).total_in_use + one_if b.in_use
unfolding buffer_status
buffer_status-update u v j b h same =
    loop_update num_io_buffers j b u.buffers v.buffers
      (record { total_in_use = 0; total_bytes_used = 0 }) h same

-- The number of buffers in use that the log shows: marking a buffer raises it by one, unless it was in
-- use before, and releasing one lowers it by one, where it was in use and has no references.
pub buffer_status-in_use :
    (u : UringBuffer) (idx fd base : ℕ)
    → idx < num_io_buffers
    → let info = u.buffers idx in
      ((buffer_status (mark_buffer_in_use idx fd u)).total_in_use + one_if info.in_use
        ≡ (buffer_status u).total_in_use + 1)
      × ((buffer_status (release_buffer idx base u)).total_in_use
            + one_if (info.in_use && info.ref_count == 0)
          ≡ (buffer_status u).total_in_use)
unfolding mark_buffer_in_use release_buffer
buffer_status-in_use u idx fd base h =
    let info = u.buffers idx in
    let marked : BufferInfo = record info {
      in_use = true;
      client_fd = fd;
      total_uses = (info.total_uses + 1) % u64;
    } in
    let released : BufferInfo = record info { in_use = false; client_fd = 0; bytes_used = 0 } in
    let mark = buffer_status-update u (mark_buffer_in_use idx fd u) idx marked h (ground arith) in
    (
      omega (arith, mark),
      elim (Bool-cases (info.in_use && info.ref_count == 0)) [
        | inl given ↦
            let release =
              buffer_status-update u (release_buffer idx base u) idx released h (ground arith) in
            ground (arith, release)
        | inr kept ↦ ground arith
      ],
    )

-- The entries of the two LOG_DEBUG, for an index of the vector or UINT16_MAX. `file` is __FILE__; where a
-- call stands on several lines, a compiler takes the first or the last for __LINE__.
module _ (file : List ℕ) (totals_line details_line : ℤ) where
  unfoldable pub totals_entry : UringBuffer → Entry
  totals_entry u =
      let t = buffer_status u in
      record {
        level = LogLevel.debug;
        file = file;
        line_number = totals_line;
        text =
            codes "[Buffer Status]\n\tTotal buffers: "
            ++ (to_string_u64 num_io_buffers
                ++ (codes "\n\tBuffers in use: "
                    ++ (to_string_u64 t.total_in_use
                        ++ (codes "\n\tAvailable buffers: "
                            ++ (to_string_u64 (num_io_buffers - t.total_in_use)
                                ++ (codes "\n\tTotal bytes in use: "
                                    ++ to_string_u64 t.total_bytes_used))))));
      }

  unfoldable pub details_entry : ℕ → UringBuffer → Entry
  details_entry idx u =
      let b = u.buffers idx in
      record {
        level = LogLevel.debug;
        file = file;
        line_number = details_line;
        text =
            codes "[Buffer #"
            ++ (to_string_u64 idx
                ++ (codes " Details]\n\tIn use: "
                    ++ ((if b.in_use then codes "yes" else codes "no")
                        ++ (codes "\n\tClient: "
                            ++ (to_string_u64 b.client_fd
                                ++ (codes "\n\tBytes used: "
                                    ++ (to_string_u64 b.bytes_used
                                        ++ (codes "\n\tTotal uses: "
                                            ++ (to_string_u64 b.total_uses
                                                ++ (codes "\n\tRef count: "
                                                    ++ to_string_u64 b.ref_count))))))))));
      }

  unfoldable pub print_buffer_status : ℕ → UringBuffer → Logger → Logger
  print_buffer_status highlight_idx u l =
      let l' = log (totals_entry u) l in
      if highlight_idx == no_buffer then l' else log (details_entry highlight_idx u) l'

-- At the level that the log starts with, nothing of it is printed.
pub print_buffer_status-hidden :
    (file : List ℕ) (totals_line details_line : ℤ) (idx : ℕ) (u : UringBuffer) (l : Logger)
    → l.current_level ≡ LogLevel.info
    → print_buffer_status file totals_line details_line idx u l ≡ l
unfolding print_buffer_status totals_entry details_entry log
print_buffer_status-hidden file totals_line details_line idx u l h = ground arith
