-- ===== src/Mpeg/Initial/Tests.antt =====
-- Runs of the check for tags, and an instance of its theorem.
use mcaster1dnas.Mpeg.Detect.Answers.{overrun}
use mcaster1dnas.Base.{Bytes, arith, codes, length, refl, replicate, ◌++◌, ◌≡◌, ◌≢◌}
use mcaster1dnas.Mpeg.Sync.{setup}
use mcaster1dnas.Mpeg.Initial.{check_for_id3, id3v1_tag, wiped}
use mcaster1dnas.Mpeg.Initial.Stays.{check_for_id3-inside}

abbrev tag : Bytes
tag = codes "TAG" ++ replicate 13 32

-- `find_align_sync` passes the number of bytes behind `start` with a pointer further on: 200 bytes
-- are said to be left where there are 16, and the tag is wiped beyond the end of the block.
wiped_outside : (check_for_id3 setup tag 200).0 ≡ overrun
unfolding check_for_id3 id3v1_tag wiped setup
wiped_outside = refl

check_for_id3-inside_example :
    ((check_for_id3 setup tag 16).0 ≢ overrun)
    × (length ((check_for_id3 setup tag 16).2) ≡ length tag)
check_for_id3-inside_example = check_for_id3-inside setup tag 16 (omega arith)
