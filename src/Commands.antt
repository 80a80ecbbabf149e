-- ===== src/Commands.antt =====
-- The register map and protocol constants (include/MAX31865/CommandTable.h).
use max.Prelude.{ℕ}

abbrev pub read_mask : ℕ
read_mask = 0x7f

abbrev pub write_bit : ℕ
write_bit = 0x80

abbrev pub num_registers : ℕ
num_registers = 8

abbrev pub spi_max_hz : ℕ
spi_max_hz = 5000000

abbrev pub max_frame_bytes : ℕ
max_frame_bytes = 9

abbrev pub reg_config : ℕ
reg_config = 0

abbrev pub reg_rtd_msb : ℕ
reg_rtd_msb = 1

abbrev pub reg_rtd_lsb : ℕ
reg_rtd_lsb = 2

abbrev pub reg_high_fault_msb : ℕ
reg_high_fault_msb = 3

abbrev pub reg_high_fault_lsb : ℕ
reg_high_fault_lsb = 4

abbrev pub reg_low_fault_msb : ℕ
reg_low_fault_msb = 5

abbrev pub reg_low_fault_lsb : ℕ
reg_low_fault_lsb = 6

abbrev pub reg_fault_status : ℕ
reg_fault_status = 7

abbrev pub reg_last : ℕ
reg_last = reg_fault_status

abbrev pub config_reset : ℕ
config_reset = 0

abbrev pub config_bias : ℕ
config_bias = 0x80

abbrev pub config_auto : ℕ
config_auto = 0x40

abbrev pub config_one_shot : ℕ
config_one_shot = 0x20

abbrev pub config_3wire : ℕ
config_3wire = 0x10

abbrev pub config_fault_cycle_mask : ℕ
config_fault_cycle_mask = 0x0c

abbrev pub config_fault_cycle_none : ℕ
config_fault_cycle_none = 0

abbrev pub config_fault_cycle_auto : ℕ
config_fault_cycle_auto = 0x04

abbrev pub config_fault_cycle_manual_1 : ℕ
config_fault_cycle_manual_1 = 0x08

abbrev pub config_fault_cycle_manual_2 : ℕ
config_fault_cycle_manual_2 = 0x0c

abbrev pub config_fault_clear : ℕ
config_fault_clear = 0x02

abbrev pub config_filter_50hz : ℕ
config_filter_50hz = 0x01

-- BIAS | AUTO | 3WIRE | FILTER_50HZ.
abbrev pub config_persistent_mask : ℕ
config_persistent_mask = 0xd1

-- ONE_SHOT | FAULT_CYCLE_MASK | FAULT_CLEAR.
abbrev pub config_command_mask : ℕ
config_command_mask = 0x2e

abbrev pub adc_code_max : ℕ
adc_code_max = 0x7fff

abbrev pub adc_full_scale : ℕ
adc_full_scale = 32768

abbrev pub reference_resistor_min_ohms : ℕ
reference_resistor_min_ohms = 350

abbrev pub reference_resistor_max_ohms : ℕ
reference_resistor_max_ohms = 10000

abbrev pub rtd_fault_bit : ℕ
rtd_fault_bit = 1

abbrev pub threshold_lsb_defined_mask : ℕ
threshold_lsb_defined_mask = 0xfe

abbrev pub fault_high_threshold : ℕ
fault_high_threshold = 0x80

abbrev pub fault_low_threshold : ℕ
fault_low_threshold = 0x40

abbrev pub fault_refin_high : ℕ
fault_refin_high = 0x20

abbrev pub fault_refin_low : ℕ
fault_refin_low = 0x10

abbrev pub fault_rtdin_low : ℕ
fault_rtdin_low = 0x08

abbrev pub fault_over_under_voltage : ℕ
fault_over_under_voltage = 0x04

abbrev pub fault_defined_mask : ℕ
fault_defined_mask = 0xfc

abbrev pub single_conversion_60hz_ms : ℕ
single_conversion_60hz_ms = 55

abbrev pub single_conversion_50hz_ms : ℕ
single_conversion_50hz_ms = 66

abbrev pub continuous_conversion_60hz_ms : ℕ
continuous_conversion_60hz_ms = 18

abbrev pub continuous_conversion_50hz_ms : ℕ
continuous_conversion_50hz_ms = 21

abbrev pub auto_fault_detection_max_us : ℕ
auto_fault_detection_max_us = 600

abbrev pub auto_fault_max_rc_us : ℕ
auto_fault_max_rc_us = 100

abbrev pub manual_fault_step1_to_open_us : ℕ
manual_fault_step1_to_open_us = 200

abbrev pub manual_fault_step2_max_us : ℕ
manual_fault_step2_max_us = 200

abbrev pub manual_fault_settle_multiplier : ℕ
manual_fault_settle_multiplier = 5

abbrev pub bias_settle_extra_us : ℕ
bias_settle_extra_us = 1000

abbrev pub cs_setup_delay_us : ℕ
cs_setup_delay_us = 1

abbrev pub cs_hold_delay_us : ℕ
cs_hold_delay_us = 1

abbrev pub cs_inactive_delay_us : ℕ
cs_inactive_delay_us = 1
