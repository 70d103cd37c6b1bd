-- ===== src/Io/IoUring/Prepared.antt =====
-- A preparation (bipolar/io/io_uring.hpp) leaves nothing of the entry's last use.
use bipolar.Common.{ℕ, ◌≡◌, refl}
use bipolar.Io.IoUring.Sqe.{
  Sqe, Opcodes, readv, read_fixed, writev, write_fixed, poll_add, poll_remove, fsync,
  sync_file_range, recvmsg, sendmsg, nop,
}

module _ (ops : Opcodes) where
  -- Each of the eleven preparations gives the same entry, whichever entry it is called on.
  pub prepared_anew :
      (fd a n off flags : ℕ) (e e' : Sqe)
      → (readv ops fd a n off e ≡ readv ops fd a n off e')
        × (read_fixed ops fd a n off flags e ≡ read_fixed ops fd a n off flags e')
        × (writev ops fd a n off e ≡ writev ops fd a n off e')
        × (write_fixed ops fd a n off flags e ≡ write_fixed ops fd a n off flags e')
        × (poll_add ops fd flags e ≡ poll_add ops fd flags e')
        × (poll_remove ops a e ≡ poll_remove ops a e')
        × (fsync ops fd flags e ≡ fsync ops fd flags e')
        × (sync_file_range ops fd off n flags e ≡ sync_file_range ops fd off n flags e')
        × (recvmsg ops fd a n e ≡ recvmsg ops fd a n e')
        × (sendmsg ops fd a n e ≡ sendmsg ops fd a n e')
        × (nop ops e ≡ nop ops e')
  unfolding readv read_fixed writev write_fixed poll_add poll_remove fsync sync_file_range recvmsg
      sendmsg nop
  prepared_anew fd a n off flags e e' =
      (refl, refl, refl, refl, refl, refl, refl, refl, refl, refl, refl)
