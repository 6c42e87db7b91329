-- ===== src/Spool/Segments/Uncounted.antt =====
-- The one write of Append under the contract of os.File.Write.
use go_collector.Base.{ℕ, false, ◌≡◌, refl, length, ==_refl, Bool-cases, inl, inr}
use go_collector.Base.Bytes.{Bytes}
use go_collector.Spool.Directory.{Host, Spool}
use go_collector.Spool.Segments.{write_frame}

-- os.File.Write returns an error whenever it wrote fewer bytes than it was given.
abbrev pub WritesAll : Host → Type 0
WritesAll host = (n : ℕ) → (host.write n).1 ≡ false → (host.write n).0 ≡ n

-- Under the contract of os.File.Write, the write of a frame never adds to the two counters of what was
-- discarded: not when all of the frame was written, and not when the write failed and the frame is
-- lost.
pub write_frame_uncounted :
    (host : Host) (frame : Bytes) (g : ℕ) (s : Spool)
    → WritesAll host
    → ((write_frame host frame g s).1.dropped_frames ≡ s.dropped_frames)
      × ((write_frame host frame g s).1.dropped_bytes ≡ s.dropped_bytes)
unfolding write_frame
write_frame_uncounted host frame g s contract = elim (Bool-cases (host.write (length frame)).1) [
  | inl failed ↦ rw failed (refl, refl)
  | inr fine ↦ rw (fine, contract (length frame) fine, ==_refl (length frame)) (refl, refl)
]
