-- ===== src/Tables/Examples.antt =====
-- kernel/tss/tss.go: the descriptor of a task segment in high memory.
use go_dav_os.Base.{◌≡◌, arith}
use go_dav_os.Tables.{encode_tss_descriptor}
use go_dav_os.Tables.Words.{base_of, encode_tss_descriptor-base_of}

encode_tss_descriptor-base_of_example :
    base_of (encode_tss_descriptor 0xffff800012345678 103) ≡ 0xffff800012345678
encode_tss_descriptor-base_of_example =
    encode_tss_descriptor-base_of 0xffff800012345678 103 (omega arith) (omega arith)
