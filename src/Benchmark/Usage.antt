-- ===== src/Benchmark/Usage.antt =====
-- print_usage of client/benchmark.cpp, which nothing calls: what it prints, in UTF-8.
use tcpchatserver.Base.{ℕ, List, [], ◌∷◌, ◌++◌}
use tcpchatserver.Client.{Output, cout}

abbrev usage_head : List ℕ
usage_head =
    0x45 ∷ 0x63 ∷ 0x68 ∷ 0x6f ∷ 0x20 ∷ 0xeb ∷ 0xb2 ∷ 0xa4 ∷ 0xec ∷ 0xb9 ∷ 0x98 ∷ 0xeb ∷ 0xa7 ∷ 0x88
    ∷ 0xed ∷ 0x81 ∷ 0xac ∷ 0x0a ∷ 0x0a ∷ 0xec ∷ 0x82 ∷ 0xac ∷ 0xec ∷ 0x9a ∷ 0xa9 ∷ 0xeb ∷ 0xb2
    ∷ 0x95 ∷ 0x3a ∷ 0x0a ∷ 0x20 ∷ 0x20 ∷ []

abbrev usage_options : List ℕ
usage_options =
    0x20 ∷ 0x5b ∷ 0xec ∷ 0x98 ∷ 0xb5 ∷ 0xec ∷ 0x85 ∷ 0x98 ∷ 0xeb ∷ 0x93 ∷ 0xa4 ∷ 0x5d ∷ 0x0a ∷ 0x0a
    ∷ 0xec ∷ 0x98 ∷ 0xb5 ∷ 0xec ∷ 0x85 ∷ 0x98 ∷ 0xeb ∷ 0x93 ∷ 0xa4 ∷ 0x3a ∷ 0x0a ∷ 0x20 ∷ 0x20
    ∷ 0x2d ∷ 0x68 ∷ 0x2c ∷ 0x20 ∷ 0x2d ∷ 0x2d ∷ 0x68 ∷ 0x65 ∷ 0x6c ∷ 0x70 ∷ 0x20 ∷ 0x20 ∷ 0x20
    ∷ 0x20 ∷ 0x20 ∷ 0x20 ∷ 0x20 ∷ 0x20 ∷ 0x20 ∷ 0x20 ∷ 0x20 ∷ 0x20 ∷ 0x20 ∷ 0x20 ∷ 0x20 ∷ 0x20
    ∷ 0xeb ∷ 0x8f ∷ 0x84 ∷ 0xec ∷ 0x9b ∷ 0x80 ∷ 0xeb ∷ 0xa7 ∷ 0x90 ∷ 0x20 ∷ 0xec ∷ 0xb6 ∷ 0x9c
    ∷ 0xeb ∷ 0xa0 ∷ 0xa5 ∷ 0x0a ∷ 0x20 ∷ 0x20 ∷ 0x2d ∷ 0x61 ∷ 0x2c ∷ 0x20 ∷ 0x2d ∷ 0x2d ∷ 0x61
    ∷ 0x64 ∷ 0x64 ∷ 0x72 ∷ 0x65 ∷ 0x73 ∷ 0x73 ∷ 0x20 ∷ 0x3c ∷ 0xec ∷ 0xa3 ∷ 0xbc ∷ 0xec ∷ 0x86
    ∷ 0x8c ∷ 0x3e ∷ 0x20 ∷ 0x20 ∷ 0x20 ∷ 0x20 ∷ 0x20 ∷ 0x20 ∷ 0xeb ∷ 0x8c ∷ 0x80 ∷ 0xec ∷ 0x83
    ∷ 0x81 ∷ 0x20 ∷ 0xec ∷ 0x84 ∷ 0x9c ∷ 0xeb ∷ 0xb2 ∷ 0x84 ∷ 0x20 ∷ 0xec ∷ 0xa3 ∷ 0xbc ∷ 0xec
    ∷ 0x86 ∷ 0x8c ∷ 0x20 ∷ 0x28 ∷ 0xea ∷ 0xb8 ∷ 0xb0 ∷ 0xeb ∷ 0xb3 ∷ 0xb8 ∷ 0xea ∷ 0xb0 ∷ 0x92
    ∷ 0x3a ∷ 0x20 ∷ 0x31 ∷ 0x32 ∷ 0x37 ∷ 0x2e ∷ 0x30 ∷ 0x2e ∷ 0x30 ∷ 0x2e ∷ 0x31 ∷ 0x3a ∷ 0x38
    ∷ 0x30 ∷ 0x38 ∷ 0x30 ∷ 0x29 ∷ 0x0a ∷ 0x20 ∷ 0x20 ∷ 0x2d ∷ 0x63 ∷ 0x2c ∷ 0x20 ∷ 0x2d ∷ 0x2d
    ∷ 0x63 ∷ 0x6c ∷ 0x69 ∷ 0x65 ∷ 0x6e ∷ 0x74 ∷ 0x73 ∷ 0x20 ∷ 0x3c ∷ 0xea ∷ 0xb0 ∷ 0x9c ∷ 0xec
    ∷ 0x88 ∷ 0x98 ∷ 0x3e ∷ 0x20 ∷ 0x20 ∷ 0x20 ∷ 0x20 ∷ 0x20 ∷ 0x20 ∷ 0xed ∷ 0x81 ∷ 0xb4 ∷ 0xeb
    ∷ 0x9d ∷ 0xbc ∷ 0xec ∷ 0x9d ∷ 0xb4 ∷ 0xec ∷ 0x96 ∷ 0xb8 ∷ 0xed ∷ 0x8a ∷ 0xb8 ∷ 0x20 ∷ 0xec
    ∷ 0x88 ∷ 0x98 ∷ 0x20 ∷ 0x28 ∷ 0xea ∷ 0xb8 ∷ 0xb0 ∷ 0xeb ∷ 0xb3 ∷ 0xb8 ∷ 0xea ∷ 0xb0 ∷ 0x92
    ∷ 0x3a ∷ 0x20 ∷ 0x35 ∷ 0x30 ∷ 0x29 ∷ 0x0a ∷ 0x20 ∷ 0x20 ∷ 0x2d ∷ 0x73 ∷ 0x2c ∷ 0x20 ∷ 0x2d
    ∷ 0x2d ∷ 0x73 ∷ 0x69 ∷ 0x7a ∷ 0x65 ∷ 0x20 ∷ 0x3c ∷ 0xed ∷ 0x81 ∷ 0xac ∷ 0xea ∷ 0xb8 ∷ 0xb0
    ∷ 0x3e ∷ 0x20 ∷ 0x20 ∷ 0x20 ∷ 0x20 ∷ 0x20 ∷ 0x20 ∷ 0x20 ∷ 0x20 ∷ 0x20 ∷ 0xeb ∷ 0xa9 ∷ 0x94
    ∷ 0xec ∷ 0x8b ∷ 0x9c ∷ 0xec ∷ 0xa7 ∷ 0x80 ∷ 0x20 ∷ 0xed ∷ 0x81 ∷ 0xac ∷ 0xea ∷ 0xb8 ∷ 0xb0
    ∷ 0x20 ∷ 0x28 ∷ 0xea ∷ 0xb8 ∷ 0xb0 ∷ 0xeb ∷ 0xb3 ∷ 0xb8 ∷ 0xea ∷ 0xb0 ∷ 0x92 ∷ 0x3a ∷ 0x20
    ∷ 0x35 ∷ 0x31 ∷ 0x32 ∷ 0x29 ∷ 0x0a ∷ 0x20 ∷ 0x20 ∷ 0x2d ∷ 0x64 ∷ 0x2c ∷ 0x20 ∷ 0x2d ∷ 0x2d
    ∷ 0x64 ∷ 0x75 ∷ 0x72 ∷ 0x61 ∷ 0x74 ∷ 0x69 ∷ 0x6f ∷ 0x6e ∷ 0x20 ∷ 0x3c ∷ 0xec ∷ 0x8b ∷ 0x9c
    ∷ 0xea ∷ 0xb0 ∷ 0x84 ∷ 0x3e ∷ 0x20 ∷ 0x20 ∷ 0x20 ∷ 0x20 ∷ 0x20 ∷ 0xed ∷ 0x85 ∷ 0x8c ∷ 0xec
    ∷ 0x8a ∷ 0xa4 ∷ 0xed ∷ 0x8a ∷ 0xb8 ∷ 0x20 ∷ 0xec ∷ 0x8b ∷ 0x9c ∷ 0xea ∷ 0xb0 ∷ 0x84 ∷ 0x28
    ∷ 0xec ∷ 0xb4 ∷ 0x88 ∷ 0x29 ∷ 0x20 ∷ 0x28 ∷ 0xea ∷ 0xb8 ∷ 0xb0 ∷ 0xeb ∷ 0xb3 ∷ 0xb8 ∷ 0xea
    ∷ 0xb0 ∷ 0x92 ∷ 0x3a ∷ 0x20 ∷ 0x36 ∷ 0x30 ∷ 0x29 ∷ 0x0a ∷ 0x20 ∷ 0x20 ∷ 0x2d ∷ 0x72 ∷ 0x2c
    ∷ 0x20 ∷ 0x2d ∷ 0x2d ∷ 0x72 ∷ 0x61 ∷ 0x74 ∷ 0x65 ∷ 0x20 ∷ 0x3c ∷ 0xec ∷ 0x86 ∷ 0x8d ∷ 0xeb
    ∷ 0x8f ∷ 0x84 ∷ 0x3e ∷ 0x20 ∷ 0x20 ∷ 0x20 ∷ 0x20 ∷ 0x20 ∷ 0x20 ∷ 0x20 ∷ 0x20 ∷ 0x20 ∷ 0xed
    ∷ 0x81 ∷ 0xb4 ∷ 0xeb ∷ 0x9d ∷ 0xbc ∷ 0xec ∷ 0x9d ∷ 0xb4 ∷ 0xec ∷ 0x96 ∷ 0xb8 ∷ 0xed ∷ 0x8a
    ∷ 0xb8 ∷ 0xeb ∷ 0x8b ∷ 0xb9 ∷ 0x20 ∷ 0xec ∷ 0xb4 ∷ 0x88 ∷ 0xeb ∷ 0x8b ∷ 0xb9 ∷ 0x20 ∷ 0xeb
    ∷ 0xa9 ∷ 0x94 ∷ 0xec ∷ 0x8b ∷ 0x9c ∷ 0xec ∷ 0xa7 ∷ 0x80 ∷ 0x20 ∷ 0xec ∷ 0x88 ∷ 0x98 ∷ 0x20
    ∷ 0x28 ∷ 0xea ∷ 0xb8 ∷ 0xb0 ∷ 0xeb ∷ 0xb3 ∷ 0xb8 ∷ 0xea ∷ 0xb0 ∷ 0x92 ∷ 0x3a ∷ 0x20 ∷ 0x32
    ∷ 0x29 ∷ 0x0a ∷ 0x0a ∷ []

abbrev pub print_usage : (program : List ℕ) → List Output
print_usage program = cout (usage_head ++ (program ++ usage_options)) ∷ []
