-- ===== src/Gpio/Registers.antt =====
-- The enumerations of `GPIORegistersAddress` in src/inc/memory_map.hpp. The source's prefix
-- `BCM2837_` of the register names is left out.
use rpi3b.Base.{ℕ}

pub data Config : Type 0 where
  input_mode output_mode alternate_function0 alternate_function1 alternate_function2
        alternate_function3 alternate_function4 alternate_function5 :
      Config

-- The value of a function in a field of GPFSELn.
abbrev pub config_code : Config → ℕ
config_code input_mode = 0b000
config_code output_mode = 0b001
config_code alternate_function0 = 0b100
config_code alternate_function1 = 0b101
config_code alternate_function2 = 0b110
config_code alternate_function3 = 0b111
config_code alternate_function4 = 0b011
config_code alternate_function5 = 0b010

pub data PullUpDownConfig : Type 0 where
  off enable_pull_down enable_pull_up pull_reserved : PullUpDownConfig

abbrev pub pull_code : PullUpDownConfig → ℕ
pull_code off = 0b00
pull_code enable_pull_down = 0b01
pull_code enable_pull_up = 0b10
pull_code pull_reserved = 0b11

pub data Register : Type 0 where
  gpfsel0 gpfsel1 gpfsel2 gpfsel3 gpfsel4 gpfsel5 gpfsel_reserved gpset0 gpset1 gpset_reserved
        gpclr0 gpclr1 gpclr_reserved gplev0 gplev1 gplev_reserved gpeds0 gpeds1 gpeds_reserved
        gpren0 gpren1 gpren_reserved gpfen0 gpfen1 gpfen_reserved gphen0 gphen1 gphen_reserved
        gplen0 gplen1 gplen_reserved gparen0 gparen1 gparen_reserved gpafen0 gpafen1 gpafen_reserved
        gppud gppudclk0 gppudclk1 reserved test1 test2 test3 test4 :
      Register

-- The word index of a register in its block.
abbrev pub index : Register → ℕ
index gpfsel0 = 0
index gpfsel1 = 1
index gpfsel2 = 2
index gpfsel3 = 3
index gpfsel4 = 4
index gpfsel5 = 5
index gpfsel_reserved = 6
index gpset0 = 7
index gpset1 = 8
index gpset_reserved = 9
index gpclr0 = 10
index gpclr1 = 11
index gpclr_reserved = 12
index gplev0 = 13
index gplev1 = 14
index gplev_reserved = 15
index gpeds0 = 16
index gpeds1 = 17
index gpeds_reserved = 18
index gpren0 = 19
index gpren1 = 20
index gpren_reserved = 21
index gpfen0 = 22
index gpfen1 = 23
index gpfen_reserved = 24
index gphen0 = 25
index gphen1 = 26
index gphen_reserved = 27
index gplen0 = 28
index gplen1 = 29
index gplen_reserved = 30
index gparen0 = 31
index gparen1 = 32
index gparen_reserved = 33
index gpafen0 = 34
index gpafen1 = 35
index gpafen_reserved = 36
index gppud = 37
index gppudclk0 = 38
index gppudclk1 = 39
index reserved = 40
index test1 = 41
index test2 = 42
index test3 = 43
index test4 = 44

-- `BCM2837_MAX`, the number of words of the block.
abbrev pub register_max : ℕ
register_max = 45
