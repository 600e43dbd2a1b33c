-- ===== src/Memory/Spi.antt =====
-- core/Memory.cpp: the SD card behind 0x10001000, a state machine that `handleMMIO` steps with
-- each byte, and its checksum.
use riscv_sym.Base.{
  ℕ, zero, suc, ◌+◌, ◌^◌, ◌*◌, ◌-◌, bit_and, bit_or, bit_xor, ◌==◌, leb, ltb, ◌&&◌, ◌||◌,
  if◌then◌else◌, ◌>>>◌, ◌<<<◌, List, [], ◌∷◌, u32, ne_zero,
}
use riscv_sym.Base.Lists.{length, get_or, set, take, drop}
use riscv_sym.State.{Memory}

-- The inner loop of `getCRC16`, with the rounds left.
unfoldable pub crc_rounds : ℕ → ℕ → ℕ
crc_rounds zero crc = crc
crc_rounds (suc j) crc =
    let shifted = u32 (crc <<< 1) in
    crc_rounds j (if ne_zero (bit_and shifted (2 ^ 16)) then bit_xor shifted 0x11021 else shifted)

unfoldable pub crc_bytes : ℕ → List ℕ → ℕ
unfolding crc_rounds
crc_bytes crc [] = crc
crc_bytes crc (b ∷ bs) = crc_bytes (crc_rounds 8 (bit_xor crc (b <<< 8))) bs

unfoldable pub get_crc16 : List ℕ → ℕ
unfolding crc_bytes
get_crc16 message = bit_and (crc_bytes 0 message) 0xffff

-- State 0, idle: a byte other than 0xff begins a command.
unfoldable pub spi_idle : ℕ → Memory → Memory
spi_idle byte_val m =
    let m' = record m { spi_read_buffer = 0xff } in
    if byte_val == 0xff then m' else record m' {
      spi_cmd = bit_and byte_val 0x3f;
      spi_state = 1;
      spi_arg = 0;
      spi_arg_bytes_received = 0;
    }

-- State 1: the four bytes of the argument.
unfoldable pub spi_argument : ℕ → Memory → Memory
spi_argument byte_val m =
    let received = m.spi_arg_bytes_received + 1 in
    record m {
      spi_arg = bit_or (u32 (m.spi_arg <<< 8)) byte_val;
      spi_arg_bytes_received = received;
      spi_state = if received == 4 then 2 else m.spi_state;
    }

-- State 2: the byte after the argument starts the command.
unfoldable pub spi_start : Memory → Memory
spi_start m =
    let m' = record m { spi_read_buffer = 0 } in
    if m.spi_cmd == 17
    then record m' { spi_state = 3; spi_data_bytes_transferred = 0 }
    else if m.spi_cmd == 24
    then record m' { spi_state = 4; spi_data_bytes_transferred = 0 }
    else record m' { spi_state = 0 }

-- State 3: a block is read out: 0, 0xfe, 512 bytes, two bytes of checksum. The sum in the test
-- wraps: where it lets a block pass that is not on the disk, `getCRC16` reads behind the disk.
unfoldable pub spi_read_block : Memory → Memory
unfolding get_crc16
spi_read_block m =
    let n = m.spi_data_bytes_transferred in
    if n == 0
    then (let disk_offset = u32 (m.spi_arg * 512) in
        record m {
          spi_read_buffer = 0;
          spi_current_crc =
              if leb (u32 (disk_offset + 512)) (length m.disk)
              then get_crc16 (take 512 (drop disk_offset m.disk))
              else 0;
          undefined_read =
              m.undefined_read
              || (leb (u32 (disk_offset + 512)) (length m.disk)
                  && ltb (length m.disk) (disk_offset + 512));
          spi_data_bytes_transferred = n + 1;
        })
    else if n == 1
    then record m { spi_read_buffer = 0xfe; spi_data_bytes_transferred = n + 1 }
    else if leb n 513
    then (let disk_offset = u32 (u32 (m.spi_arg * 512) + (n - 2)) in
        record m {
          spi_read_buffer = get_or m.disk disk_offset 0;
          spi_data_bytes_transferred = n + 1;
        })
    else if n == 514
    then record m {
      spi_read_buffer = bit_and (m.spi_current_crc >>> 8) 0xff;
      spi_data_bytes_transferred = n + 1;
    }
    else if n == 515
    then record m {
      spi_read_buffer = bit_and m.spi_current_crc 0xff;
      spi_data_bytes_transferred = n + 1;
    }
    else record m { spi_read_buffer = 0xff; spi_state = 0 }

-- State 4: a block is written: 0xfe starts it, 512 bytes and two of checksum follow.
unfoldable pub spi_write_block : ℕ → Memory → Memory
spi_write_block byte_val m =
    let n = m.spi_data_bytes_transferred in
    if n == 0
    then (let m' =
          if m.clock_count == 0
          then record m { spi_read_buffer = 0; clock_count = 1 }
          else record m { spi_read_buffer = 0xff } in
        if byte_val == 0xfe
        then record m' { spi_data_bytes_transferred = 1; clock_count = 0 }
        else m')
    else if leb n 512
    then (let disk_offset = u32 (u32 (m.spi_arg * 512) + (n - 1)) in
        record m { disk = set m.disk disk_offset byte_val; spi_data_bytes_transferred = n + 1 })
    else if leb n 514
    then record m { spi_data_bytes_transferred = n + 1 }
    else record m { spi_read_buffer = 5; spi_state = 0 }

-- One byte to the card; `spi_state` has no other value than 0 to 4.
unfoldable pub spi_step : ℕ → Memory → Memory
spi_step byte_val m =
    if m.spi_state == 0
    then spi_idle byte_val m
    else if m.spi_state == 1
    then spi_argument byte_val m
    else if m.spi_state == 2
    then spi_start m
    else if m.spi_state == 3
    then spi_read_block m
    else if m.spi_state == 4
    then spi_write_block byte_val m
    else m
