-- ===== src/Lib.antt =====
-- LaylaOS, the parts of a 32-bit kernel for the i386 that carry its logic.
--
-- The kernel keeps a bitmap of the physical frames (src/memory/pmm.cpp), from which page directories
-- and tables are made (src/memory/paging.cpp). A timer interrupt calls the round-robin scheduler
-- (src/kernel/scheduler.cpp). Typed characters go through the terminal's line editor
-- (src/ui/terminal.cpp) into a ring buffer (src/kernel/keyboard_buffer.cpp) whose readers the scheduler
-- wakes. The network stack (src/net) sits on the card's driver (src/drivers/rtl8139.cpp): frames are
-- dispatched to ARP and IPv4, and IPv4 delivers to UDP, ICMP and TCP, which send through it. Files are
-- on a FAT32 volume (src/fs/fat32.cpp) in a partition (src/fs/mbr.cpp) of the disk that
-- src/drivers/ata.cpp reads and writes by sectors. Programs reach all of this by the system calls
-- (src/kernel/syscall.cpp).
--
-- Files and the code they are about; a child module under the same name holds its theorems:
--   Base            machine words, arrays, the bits of a word, steps that may fail
--   Memory/Pmm      PhysicalMemoryManager: the record has its static members, a function per method
--   Memory/Paging   PageDirectory: memory is a function from a frame's address and a word's index,
--                   so that directories share a table by having the same pointer
--   Memory/Heap     MemoryManager: the chunks in the order of their next pointers
--   Kernel/Process, Kernel/Scheduler      the process table, Schedule, WakeParent, NextPID
--   Kernel/KeyboardBuffer                 KeyboardBuffer; Refine has the queue that it implements
--   Net/Wire, Net/Checksum                src/net/net.h: byte order, addresses, InternetChecksum
--   Net/Ethernet    EthernetDriver and RTL8139Driver::Send; the card records the frames sent
--   Net/Arp, Net/Ipv4, Net/Udp, Net/Icmp, Net/Tcp   one module per protocol, as the files of src/net
--   Fs/Disk         ATADriver's Read28 and Write28; the results of code that uses the disk
--   Fs/Mbr          MBRParser
--   Fs/Fat32        FAT32 in src/fs/fat32.cpp: mounting, the tables and the clusters; its children
--                   Name, Entry, Directory, Path, File and Listing have the other methods
--   Kernel/Syscall  the tests on user addresses, sys_write and sys_set_raw_input; its children Files,
--                   Waiting and Network have the other calls, Dispatch the choice of the call
--   Drivers/Keyboard  KeyboardDriver: scan codes, the modifier keys, where a character goes
--   Drivers/Mouse   MouseDriver: the packets of three bytes
--   Arch/Gdt        GlobalDescriptorTable: the encoding of descriptors
--   Arch/Interrupts  InterruptManager and InterruptHandler: the gates, the handlers, DoHandleInterrupt
--   Ui/Terminal     Terminal: the grid, the cursor and OnKeyPress
--   Ui/Desktop      Desktop and Window: hit tests and the mouse's cursor
-- Modules called Tests hold runs and instances of the theorems at concrete values.
--
-- How code becomes definitions. Numbers are natural numbers, and every operation on a `uint32_t`,
-- `uint16_t` or `uint8_t` that can wrap is written with its `% 2 ^ w`. Arrays are lists. A static or a
-- member that a method changes is passed in and returned. A pointer to bytes is the list of the bytes
-- from it on, and a read past the end of that list gives 0; a write past the end of a static buffer is
-- the value `none`, so that a theorem with `some` says that no such write happens. A virtual call is
-- an element of the result: dispatching a frame or a packet gives the calls in their order with
-- their arguments, a TCP segment gives at most one event.
--
-- Code on the disk is a function from a Disk, whose sectors are functions of their address, to a Run:
-- a value with the disk after it, a fault (past the end of a buffer, or a division by zero), or the end
-- of the fuel. A sector that the drive does not answer for reads as false. What an uninitialised
-- buffer on the stack holds is a field of the disk.
-- A system call that waits is two functions, one up to the `hlt` loop and one from it; between
-- them interrupts give the state that the second takes.
--
-- Bounds and fuel. A walk along a chain of clusters has as its fuel the number of entries of the table
-- and one more, which a chain without a repetition does not reach; on a cyclic chain, where the code
-- does not end, the result is the end of the fuel. The loop that writes a file has one more than the
-- file's size, since each round writes a byte at least; the loops on a path have the path's length.
-- The search for a ready process has the length of the table as its fuel, which is the bound of the
-- source's loop. The carry loop of InternetChecksum has three rounds, and two are
-- enough for any 32-bit sum. All other loops are recursion on a list or on the source's own bound.
--
-- Not modelled: drawing, port and DMA accesses (the card's reset and receive ring, the waits and the
-- identification of the disk, the PCI bus, the start of the interrupt controllers), the loading of
-- processor tables and of CR3, assembly and start-up code, the null pointers that FAT32's methods
-- test. The construction of processes, the destructor of a page directory and the table of drivers
-- have no model yet.
pub mod Base
pub mod Memory
pub mod Kernel
pub mod Net
pub mod Ui
pub mod Arch
pub mod Drivers
pub mod Fs
