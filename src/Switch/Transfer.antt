-- ===== src/Switch/Transfer.antt =====
-- Register transfers, increments and decrements of src/olc6502.c's `switch (opcode)`.
use m.Base.{ℕ, ◌+◌}
use m.Cpu.{
  M, ◌>>=◌, ◌>>◌, get_a, get_x, get_y, set_a, set_x, set_y, spend, update_flags_from_register,
}

pub data TransferIns : Type 0 where
  tax txa tay tya inx dex iny dey : TransferIns

unfoldable pub transfer_opcode : TransferIns → ℕ
transfer_opcode tax = 0xAA
transfer_opcode txa = 0x8A
transfer_opcode tay = 0xA8
transfer_opcode tya = 0x98
transfer_opcode inx = 0xE8
transfer_opcode dex = 0xCA
transfer_opcode iny = 0xC8
transfer_opcode dey = 0x88

unfoldable pub transfer : TransferIns → M (Unit {0})
transfer tax = do set_x (← get_a); update_flags_from_register (← get_x); spend 1
transfer txa = do set_a (← get_x); update_flags_from_register (← get_a); spend 1
transfer tay = do set_y (← get_a); update_flags_from_register (← get_y); spend 1
transfer tya = do set_a (← get_y); update_flags_from_register (← get_a); spend 1
transfer inx = do set_x ((← get_x) + 1); update_flags_from_register (← get_x); spend 1
transfer dex = do set_x ((← get_x) + 255); update_flags_from_register (← get_x); spend 1
transfer iny = do set_y ((← get_y) + 1); update_flags_from_register (← get_y); spend 1
transfer dey = do set_y ((← get_y) + 255); update_flags_from_register (← get_y); spend 1
